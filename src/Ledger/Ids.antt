-- ===== src/Ledger/Ids.antt =====
-- artifact/ledger: the id of a receipt names it.
use innen.Common.{
  ℕ, zero, suc, ◌+◌, ◌≡◌, sym, ap, ◌∙◌, some, List, [], ◌∷◌, ◌++◌, length, get_elem?, arith,
}
use innen.Common.Text.{Text, codes}
use innen.Ledger.{Receipt, Ledger, receipt_id, receipts_of, archive_key}
use innen.Common.Decimal.{decimal, decimal-injective}
use innen.Ledger.Log.{Numbered, IsLedger}

tail_eq : {x y : ℕ} {s t : Text} → ◌≡◌ {A = Text} (x ∷ s) (y ∷ t) → s ≡ t
tail_eq h = cc

cancel_left : (p s t : Text) → p ++ s ≡ p ++ t → s ≡ t
cancel_left [] s t h = h
cancel_left (c ∷ p) s t h = cancel_left p s t (tail_eq h)

cancel_same_length : (p q s t : Text) → length p ≡ length q → p ++ s ≡ q ++ t → s ≡ t
cancel_same_length [] [] s t l h = h
cancel_same_length [] (d ∷ q) s t l h = absurd (omega arith)
cancel_same_length (c ∷ p) [] s t l h = absurd (omega arith)
cancel_same_length (c ∷ p) (d ∷ q) s t l h = cancel_same_length p q s t (omega arith) (tail_eq h)

receipt_id-injective :
    (key sha sha' : Text) (m n : ℕ)
    → length sha ≡ 64
    → length sha' ≡ 64
    → receipt_id key sha m ≡ receipt_id key sha' n
    → m ≡ n
unfolding receipt_id
receipt_id-injective key sha sha' m n long long' h = decimal-injective m n (
    cancel_left (codes ":") (decimal m) (decimal n) (
      cancel_same_length sha sha' _ _ (long ∙ sym long')
        (cancel_left (codes ":") _ _ (cancel_left key _ _ (cancel_left (codes "receipt:") _ _ h)))))

Numbered-at :
    (key : Text) (n : ℕ) (rs : List Receipt) (i : ℕ) {r : Receipt}
    → Numbered key n rs
    → get_elem? rs i ≡ some r
    → (r.id ≡ receipt_id key r.sha256 (n + i)) × (length r.sha256 ≡ 64)
Numbered-at key n [] i h at' = cc
Numbered-at key n (x ∷ rs) zero {r} h at' =
    let same : x ≡ r = cc at' in
    let plus : n ≡ n + 0 = omega arith in
    rw (← same) (h.0.0 ∙ ap (receipt_id key x.sha256) plus, h.0.1)
Numbered-at key n (x ∷ rs) (suc i) {r} h at' =
    let (id, long) = Numbered-at key (suc n) rs i h.1 at' in
    let plus : suc n + i ≡ n + suc i = omega arith in (id ∙ ap (receipt_id key r.sha256) plus, long)

-- Two receipts with the same id are one and the same.
abbrev pub HasDistinctIds : Ledger → Type 0
HasDistinctIds l =
    (i j : ℕ) (r r' : Receipt)
    → get_elem? (receipts_of l.log) i ≡ some r
    → get_elem? (receipts_of l.log) j ≡ some r'
    → r.id ≡ r'.id
    → i ≡ j

pub IsLedger-HasDistinctIds : (sha : Text → Text) (l : Ledger) → IsLedger sha l → HasDistinctIds l
IsLedger-HasDistinctIds sha l h i j r r' at' at'' same =
    let key = archive_key sha l.manifest in
    let (id, long) = Numbered-at key 1 (receipts_of l.log) i h.numbered at' in
    let (id', long') = Numbered-at key 1 (receipts_of l.log) j h.numbered at'' in
    let numbers =
      receipt_id-injective key r.sha256 r'.sha256 (1 + i) (1 + j) long long'
        (sym id ∙ same ∙ id') in
    omega arith
