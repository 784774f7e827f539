-- ===== src/Store/Tests.antt =====
-- The theorems on the store at concrete inputs.
use tradecast.Prelude.{
  ◌≡◌, refl, false, none, some, List, [], ◌∷◌, ◌++◌, map, Text, codes, text_eq, any, pos, negsuc,
}
use tradecast.Store.Signals.{round_lot}
use tradecast.Store.Migrate.{
  Entry, Schema, Exec, has_suffix, is_applied, apply_file_content, migrate_entry, migrate_entries,
  migrate,
}
use tradecast.Store.Migrate.Resume.{reread, migrate-resume}

-- A database that remembers the scripts it executed, the newest first. None fails.
abbrev remember : Exec (List Text)
remember sql executed = (false, sql ∷ executed)

abbrev file : Text → Text → Entry
file name sql = record {
  name = name;
  is_dir = false;
  content = some sql;
  count_fault = false;
  insert_fault = false;
}

abbrev first : Entry
first = file (codes "001_a.sql") (codes "A")

abbrev second : Entry
second = file (codes "002_b.sql") (codes "B")

abbrev readme : Entry
readme = file (codes "README") (codes "text")

abbrev blank : Schema (List Text)
blank = record { db = []; applied = [] }

abbrev migrated : Schema (List Text)
migrated = (migrate remember (some (first ∷ readme ∷ [])) false blank).1

first_succeeds : (migrate remember (some (first ∷ readme ∷ [])) false blank).0 ≡ none
unfolding migrate migrate_entries migrate_entry apply_file_content is_applied has_suffix text_eq any
first_succeeds = refl

inserts_succeed : any (λ (e : Entry). e.insert_fault) (first ∷ readme ∷ []) ≡ false
unfolding any
inserts_succeed = refl

migrate-resume_example :
    migrate remember
      (some (map (reread (λ e. some (codes "DROP"))) (first ∷ readme ∷ []) ++ second ∷ []))
      false
      migrated
    ≡ migrate remember (some (second ∷ [])) false migrated
migrate-resume_example =
    migrate-resume remember (λ e. some (codes "DROP")) (first ∷ readme ∷ []) (second ∷ []) blank
      inserts_succeed first_succeeds

-- 0.10005 is rounded up, and a little less is rounded down.
lots :
    (round_lot (pos 10_005_000) ≡ pos 10_010_000)
    × (round_lot (pos 10_004_999) ≡ pos 10_000_000)
    × (round_lot (negsuc 4_998) ≡ pos 0)
unfolding round_lot
lots = (refl, refl, refl)
