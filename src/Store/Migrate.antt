-- ===== src/Store/Migrate.antt =====
-- Migrate of internal/store/store.go: the SQL files of a directory, each executed once.
-- The database is a type of its own, and what executing a script does to it is a parameter.
pub mod Resume
use tradecast.Prelude.{
  ◌≡◌, ◌⊎◌, inl, inr, refl, Bool, true, false, not, ◌&&◌, ◌||◌, Bool-cases, Option, none, some,
  List, [], ◌∷◌, ◌++◌, Text, codes, text_eq, text_eq_refl, reverse, any, Result, ok, err,
  if◌then◌else◌, arith,
}

-- Where Migrate gives up.
pub data MigrateError : Type 0 where
  read_dir : MigrateError
  create_table : MigrateError
  read_file : Text → MigrateError
  apply_file : Text → MigrateError

-- An entry of the directory, with what becomes of the calls for it: `content` is what ReadFile
-- returns (`none`: it fails), the two Booleans are whether the COUNT and the INSERT fail.
pub record Entry : Type 0 where
  pub name : Text
  pub is_dir : Bool
  pub content : Option Text
  pub count_fault : Bool
  pub insert_fault : Bool

abbrev has_prefix : Text → Text → Bool
has_prefix [] s = true
has_prefix (c ∷ p) [] = false
has_prefix (c ∷ p) (d ∷ s) = text_eq (c ∷ []) (d ∷ []) && has_prefix p s

-- strings.HasSuffix
unfoldable pub has_suffix : Text → Text → Bool
has_suffix s suffix = has_prefix (reverse suffix) (reverse s)

-- `applied`: the file names of schema_migrations, the newest first
pub record Schema (D : Type 0) : Type 0 where
  pub db : D
  pub applied : List Text

abbrev pub skipped : Entry → Bool
skipped e = e.is_dir || not (has_suffix e.name (codes ".sql"))

-- `count > 0`; a COUNT that fails leaves count at 0
unfoldable pub is_applied : Entry → List Text → Bool
is_applied e applied = if e.count_fault then false else any (λ n. text_eq n e.name) applied

-- Executing a script: whether it fails, and the database after it.
abbrev pub Exec : Type 0 → Type 0
Exec D = Text → D → Bool × D

module _ {D : Type 0} (exec : Exec D) where
  -- the INSERT, whose error is dropped
  abbrev record_file : Entry → D → Schema D → Schema D
  record_file e db s = record {
    db = db;
    applied = if e.insert_fault then s.applied else e.name ∷ s.applied;
  }

  -- the file of an entry that is not applied
  unfoldable pub apply_file_content :
      Entry → Option Text → Schema D → Option MigrateError × Schema D
  apply_file_content e none s = (some (read_file e.name), s)
  apply_file_content e (some sql) s =
      let (failed, db) = exec sql s.db in
      if failed
      then (some (apply_file e.name), record s { db = db })
      else (none, record_file e db s)

  -- the body of the loop
  unfoldable pub migrate_entry : Entry → Schema D → Option MigrateError × Schema D
  migrate_entry e s =
      if skipped e || is_applied e s.applied then (none, s) else apply_file_content e e.content s

  -- the loop, which returns at the first error
  unfoldable pub migrate_entries : List Entry → Schema D → Option MigrateError × Schema D
  migrate_entries [] s = (none, s)
  migrate_entries (e ∷ es) s =
      let (failed, s') = migrate_entry e s in
      elim failed [ some x ↦ (some x, s') | none ↦ migrate_entries es s' ]

  -- Migrate, from whether ReadDir and CREATE TABLE IF NOT EXISTS fail
  unfoldable pub migrate : Option (List Entry) → Bool → Schema D → Option MigrateError × Schema D
  migrate none fault s = (some read_dir, s)
  migrate (some entries) fault s =
      if fault then (some create_table, s) else migrate_entries entries s
