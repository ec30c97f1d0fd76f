-- ===== src/Journal/Tests.antt =====
-- journal.rs: a journal that loses the end of a line, and instances of the theorems.
use innen.Common.{
  ◌⊎◌, false, ◌+◌, ◌≡◌, refl, true, ◌++◌, [], ◌∷◌, some, ok, err, nat_eq, ◌↔◌, ◌≢◌, panic,
}
use innen.Common.Text.{Text, codes}
use innen.Common.Json.{Json, str, obj, end, field}
use innen.Graph.Requests.{JournalEntry}
use innen.Journal.{
  Disk, is_allowed, validate, entry, append, open_journal, read_all, write_line, content, is_bad,
  unknown_op, not_utf8, is_utf8, keep_line,
}
use innen.Journal.Lines.{is_sealed}
use innen.Journal.Checks.{IsEvent, keys_of, validate-IsEvent}
use innen.Journal.Recovery.{HasOpened, with_torn, open_journal-reads}
use innen.Journal.Reading.{IsWhole}
use innen.Journal.Runs.{
  Run, Step, Reach, start, here, next, appends, crashes, IsDurable, Reach-IsDurable, Reach-appends,
  append-glued,
}
use innen.Journal.Sample.{sample, sample-IsFaithful, sample-IsStable, render, parse_entry}

abbrev op : Text
op = codes "config.set"

abbrev now : Text
now = codes "2026-01-01T00:00:00Z"

abbrev payload : Json
payload = obj (field (codes "key") (str (codes "k")) end)

payload-IsEvent : IsEvent op payload
unfolding is_allowed keys_of
payload-IsEvent = (refl, (field (codes "key") (str (codes "k")) end, refl, refl))

validate-IsEvent_example :
    ((validate op payload ≡ ok tt) ↔ IsEvent op payload) × (validate op payload ≢ panic)
validate-IsEvent_example = validate-IsEvent op payload

no_key : Text
no_key = codes "x"

refused_op : append sample no_key payload now start.disk ≡ err (unknown_op no_key)
unfolding append no_key
refused_op = refl

abbrev first : Disk
first = write_line (sample.render (entry sample op payload now)) start.disk

append-first : append sample op payload now start.disk ≡ ok (op, first)
unfolding append
append-first = refl

start-IsWhole : IsWhole start.disk
unfolding is_sealed
start-IsWhole = record { sealed = refl; plain = refl; readable = refl }

abbrev one_entry : Run
one_entry = record { disk = first; acked = entry sample op payload now ∷ [] }

abbrev torn : Text
torn = codes "{"

torn-is_bad : is_bad sample torn ≡ true
unfolding keep_line parse_entry
torn-is_bad = refl

start-opens : open_journal sample start.disk ≡ ok start.disk
unfolding open_journal
start-opens = refl

one_entry-Step : Step sample start one_entry
one_entry-Step =
    appends op payload now op start.disk first start-opens
      (sample-IsStable (entry sample op payload now)) append-first refl

first-opens : open_journal sample first ≡ ok first
unfolding open_journal write_line render keep_line parse_entry
first-opens = refl

abbrev after_crash : Text → Run
after_crash part = record one_entry { disk = with_torn first part }

crashed-Reach : Reach sample start (after_crash torn)
crashed-Reach =
    next (next here one_entry-Step) (crashes torn first first-opens (refl, refl) torn-is_bad refl)

Reach-IsDurable_example : IsDurable sample (after_crash torn)
Reach-IsDurable_example = Reach-IsDurable sample sample-IsFaithful (after_crash torn) crashed-Reach

-- The first byte of a character of three: the journal cannot be opened any more.
abbrev cut : Text
cut = 123 ∷ (56320 + 226) ∷ []

cut-fails : open_journal sample (with_torn first cut) ≡ err not_utf8
unfolding open_journal write_line render
cut-fails = refl

Reach-appends_example :
    (t : Run) × Step sample one_entry t
    × (read_all sample t.disk ≡ ok (one_entry.acked ++ entry sample op payload now ∷ []))
Reach-appends_example =
    Reach-appends sample sample-IsFaithful one_entry (next here one_entry-Step) first first-opens op
      payload now payload-IsEvent (sample-IsStable (entry sample op payload now))

abbrev only_torn : Disk
only_torn = record { journal = some torn; quarantine = [] }

open_journal-reads_example :
    ((is_utf8 (content only_torn.journal) ≡ false)
      × (open_journal sample only_torn ≡ err not_utf8)
      × (read_all sample only_torn ≡ err not_utf8))
    ⊎ (after : Disk) × HasOpened sample only_torn after
open_journal-reads_example = open_journal-reads sample sample-IsFaithful only_torn refl

abbrev e : JournalEntry
e = entry sample op payload now

append-glued_example :
    (open_journal sample (record { journal = some (render e); quarantine = [] })
      ≡ ok (record { journal = some (render e); quarantine = [] }))
    × (d : Disk) × (append sample op payload now
          (record { journal = some (render e); quarantine = [] })
        ≡ ok (op, d))
    × (read_all sample d ≡ ok [])
unfolding parse_entry render
append-glued_example =
    append-glued sample sample-IsFaithful e (sample-IsStable e) op payload now payload-IsEvent refl
