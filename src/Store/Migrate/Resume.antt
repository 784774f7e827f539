-- ===== src/Store/Migrate/Resume.antt =====
-- A migration that was applied is not applied again.
use tradecast.Prelude.{
  ◌≡◌, ◌⊎◌, inl, inr, refl, ap, ◌∙◌, Bool, true, false, Option, none, some, Option-cases, List, [],
  ◌∷◌, ◌++◌, map, Text, text_eq, text_eq_refl, any, arith,
}
use tradecast.Store.Migrate.{
  Entry, Schema, Exec, skipped, is_applied, apply_file_content, migrate_entry, migrate_entries,
  migrate,
}

-- Migrate has nothing to do for an entry: it is no SQL file, or its name is recorded.
abbrev pub IsDone : Entry → List Text → Type 0
IsDone e applied = (skipped e ≡ true) ⊎ (any (λ n. text_eq n e.name) applied ≡ true)

abbrev pub AllDone : List Entry → List Text → Type 0
AllDone [] applied = Unit
AllDone (e ∷ es) applied = IsDone e applied × AllDone es applied

-- The entry at another run that can count the rows: its content may be another, or unreadable.
abbrev pub reread : (Entry → Option Text) → Entry → Entry
reread content e = record e { content = content e; count_fault = false }

any-cons : (p : Text → Bool) (x : Text) (xs : List Text) → any p xs ≡ true → any p (x ∷ xs) ≡ true
unfolding any
any-cons p x xs h = ground (arith, h)

module _ {D : Type 0} (exec : Exec D) where
  migrate_entry-keeps :
      (p : Text → Bool) (e : Entry) (s : Schema D)
      → any p s.applied ≡ true
      → any p (migrate_entry exec e s).1.applied ≡ true
  unfolding migrate_entry apply_file_content
  migrate_entry-keeps p e s h = ground (arith, h, any-cons p e.name s.applied)

  migrate_entries-keeps :
      (p : Text → Bool) (es : List Entry) (s : Schema D)
      → any p s.applied ≡ true
      → any p (migrate_entries exec es s).1.applied ≡ true
  unfolding migrate_entries
  migrate_entries-keeps p [] s h = h
  migrate_entries-keeps p (e ∷ es) s h =
      let kept = migrate_entry-keeps p e s h in
      elim (Option-cases (migrate_entry exec e s).0) [
        | inl q ↦ rw (q, migrate_entries) (migrate_entries-keeps p es _ kept)
        | inr (x, q) ↦ rw (q, migrate_entries) kept
      ]

  migrate_entry-IsDone :
      (e : Entry) (s : Schema D)
      → e.insert_fault ≡ false
      → (migrate_entry exec e s).0 ≡ none
      → IsDone e (migrate_entry exec e s).1.applied
  unfolding migrate_entry apply_file_content is_applied any
  migrate_entry-IsDone e s inserted q = ground (arith, inserted, q, text_eq_refl e.name)

  IsDone-keeps :
      (e : Entry) (es : List Entry) (s : Schema D)
      → IsDone e s.applied
      → IsDone e (migrate_entries exec es s).1.applied
  IsDone-keeps e es s (inl h) = inl h
  IsDone-keeps e es s (inr h) = inr (migrate_entries-keeps (λ n. text_eq n e.name) es s h)

  -- A run that succeeds leaves nothing to do.
  migrate_entries-AllDone :
      (es : List Entry) (s : Schema D)
      → any (λ e. e.insert_fault) es ≡ false
      → (migrate_entries exec es s).0 ≡ none
      → AllDone es (migrate_entries exec es s).1.applied
  unfolding migrate_entries any
  migrate_entries-AllDone [] s inserted q = tt
  migrate_entries-AllDone (e ∷ es) s inserted q = elim (Option-cases (migrate_entry exec e s).0) [
    | inl r ↦
        let s' = (migrate_entry exec e s).1 in
        let done = migrate_entry-IsDone e s (ground (arith, inserted)) r in
        let rest =
          migrate_entries-AllDone es s' (ground (arith, inserted)) (ground (arith, q, r)) in
        rw (r, migrate_entries) (IsDone-keeps e es s' done, rest)
    | inr (x, r) ↦ absurd (ground (arith, q, r))
  ]

  migrate_entry_done :
      (content : Entry → Option Text) (e : Entry) (s : Schema D)
      → IsDone e s.applied
      → migrate_entry exec (reread content e) s ≡ (none, s)
  unfolding migrate_entry is_applied
  migrate_entry_done content e s (inl h) = ground (arith, h)
  migrate_entry_done content e s (inr h) = ground (arith, h)

  migrate_entries-next :
      (e : Entry) (es : List Entry) (s s' : Schema D)
      → migrate_entry exec e s ≡ (none, s')
      → migrate_entries exec (e ∷ es) s ≡ migrate_entries exec es s'
  unfolding migrate_entries
  migrate_entries-next e es s s' q =
      rw (ap (λ r. r.0) q, migrate_entries) (ap (λ r. migrate_entries exec es r.1) q)

  migrate_entries_done :
      (content : Entry → Option Text) (es more : List Entry) (s : Schema D)
      → AllDone es s.applied
      → migrate_entries exec (map (reread content) es ++ more) s ≡ migrate_entries exec more s
  unfolding migrate_entries
  migrate_entries_done content [] more s h = refl
  migrate_entries_done content (e ∷ es) more s (h, hs) =
      migrate_entries-next (reread content e) (map (reread content) es ++ more) s s
        (migrate_entry_done content e s h)
      ∙ migrate_entries_done content es more s hs

-- Once Migrate has succeeded on a directory, with every file name recorded, another run on the same
-- entries, whatever their files contain now, followed by new entries does exactly what a run on the
-- new entries alone does: no applied script is executed again, and without new entries nothing
-- changes. It is for any effect of the scripts, and runs in which ReadDir, CREATE TABLE and, the
-- second time, the COUNT of the known entries do not fail.
pub migrate-resume :
    {D : Type 0} (exec : Exec D) (content : Entry → Option Text) (es more : List Entry)
    (s : Schema D)
    → any (λ e. e.insert_fault) es ≡ false
    → (migrate exec (some es) false s).0 ≡ none
    → migrate exec (some (map (reread content) es ++ more)) false (migrate exec (some es) false s).1
      ≡ migrate exec (some more) false (migrate exec (some es) false s).1
unfolding migrate
migrate-resume exec content es more s inserted success =
    migrate_entries_done exec content es more _ (migrate_entries-AllDone exec es s inserted success)
