-- ===== src/Daemon/Handler/Submission.antt =====
-- A submission of crates/vcli-daemon/src/handler.rs from its text to the rows and the command.
use vcli.Prelude.{
  String, ◌≡◌, refl, sym, ap, subst, ◌∙◌, inl, inr, true, Option, none, some, List, [], ◌∷◌, ◌++◌,
  if◌then◌else◌, Bool-cases, All, ok, err,
}
use vcli.Core.Program.{ProgramId, Program}
use vcli.Store.Rows.{Store, ProgramRow, NewProgram, find_row, insert_program, constraint}
use vcli.Store.Assets.{has_link}
use vcli.Store.Assets.Links.{KeepsLinks, link_program_asset-links, link-keeps}
use vcli.Store.Assets.Upkeep.{link_program_asset-HasIntegrity}
use vcli.Store.Gc.{is_known, has_program}
use vcli.Store.Gc.Integrity.{HasIntegrity}
use vcli.Store.Gc.Inserts.{insert_program-HasIntegrity}
use vcli.Runtime.Program.{submit_validated}
use vcli.Dsl.Validation.{Validated}
use vcli.Daemon.Assets.{MaterializedAssets, materialize_template_assets}
use vcli.Daemon.Assets.Stocked.{IsStocked, IsGathered}
use vcli.Daemon.Assets.Gathering.{materialize-IsGathered}
use vcli.Daemon.Requests.{daemon_busy, simple, submitted}
use vcli.Daemon.Service.{Daemon, Host, validate_value, send_command}
use vcli.Daemon.Handler.{link_all, new_row, store_submission, or_fresh, handle_submit}

-- The row of a program that has just been inserted.
abbrev pub row_of : NewProgram → ProgramRow
row_of n = record {
  id = n.id;
  name = n.name;
  source_json = n.source_json;
  state = n.state;
  submitted_at = n.submitted_at;
  started_at = none;
  finished_at = none;
  last_error_code = none;
  last_error_msg = none;
  labels_json = n.labels_json;
  body_cursor = 0;
  body_entered_at = none;
}

insert-exact :
    (s v : Store) (n : NewProgram)
    → insert_program s n ≡ ok v
    → v ≡ record s { programs = s.programs ++ row_of n ∷ [] }
unfolding insert_program
insert-exact s v n e = by_row (find_row n.id s.programs) e
  where
    by_row :
        (row : Option ProgramRow)
        → (elim row [
          | some r ↦ err constraint
          | none ↦ ok (record s { programs = s.programs ++ row_of n ∷ [] })
        ])
          ≡ ok v
        → v ≡ record s { programs = s.programs ++ row_of n ∷ [] }
    by_row none e = cc e
    by_row (some r) e = cc e

module _ (host : Host) where
  link_all-HasIntegrity :
      (k : ProgramId) (hs : List String) (s : Store)
      → HasIntegrity s
      → has_program s.programs k ≡ true
      → All (λ h. is_known s.assets h ≡ true) hs
      → (t : Store) × (link_all host k hs s ≡ (ok tt, t))
        × (t.programs ≡ s.programs)
        × All (λ h. has_link t.program_assets k h ≡ true) hs
        × KeepsLinks s t
        × HasIntegrity t
  unfolding link_all
  link_all-HasIntegrity k [] s sound here known = (s, refl, refl, tt, (λ j g x. x), sound)
  link_all-HasIntegrity k (h ∷ hs) s sound here known =
      let (t, e, there, kept) = link_program_asset-HasIntegrity s k h sound here known.0 in
      let same = link-keeps s t k h e in
      let (linked, old) = link_program_asset-links s t k h e in
      let (w, f, rows, links, more, all) =
        link_all-HasIntegrity k hs t kept (subst (λ ps. has_program ps k ≡ true) (sym same.0) here)
          (subst (λ as'. All (λ g. is_known as' g ≡ true) hs) (sym same.1) known.1) in
      (
        w,
        rw (e, f) refl,
        rows ∙ same.0,
        (more k h linked, links),
        (λ j g x. more j g (old j g x)),
        all,
      )

  store_submission-HasIntegrity :
      (pid : ProgramId) (program q : Program) (base_dir : Option String) (s t : Store)
      (out : MaterializedAssets) (source : String)
      → HasIntegrity s
      → IsStocked s
      → find_row pid s.programs ≡ none
      → materialize_template_assets host.files base_dir host.now_ms s program ≡ (ok q, (t, out))
      → host.source_text q ≡ ok source
      → (w : Store) × (store_submission host pid program base_dir s ≡ (ok (q, out), w))
        × (w.programs ≡ s.programs ++ row_of (new_row host pid q source) ∷ [])
        × All (λ h. has_link w.program_assets pid h ≡ true) out.hashes
        × KeepsLinks t w
        × HasIntegrity w
  unfolding store_submission
  store_submission-HasIntegrity pid program q base_dir s t out source sound stocked free made text =
      let g : IsGathered s.programs (t, out) =
        subst (λ o. IsGathered s.programs o.1) made
          (materialize-IsGathered host.files base_dir host.now_ms s program sound stocked) in
      let n = new_row host pid q source in
      let still_free : find_row pid t.programs ≡ none =
        subst (λ rows. find_row pid rows ≡ none) (sym g.programs) free in
      let (v, e, there, kept) = insert_program-HasIntegrity t n g.integrity still_free in
      let exact : v ≡ record t { programs = t.programs ++ row_of n ∷ [] } = insert-exact t v n e in
      let (w, f, rows, links, more, all) =
        link_all-HasIntegrity pid out.hashes v kept there
          (subst (λ u. All (λ h. is_known u.assets h ≡ true) out.hashes) (sym exact) g.known) in
      (
        w,
        rw (made, text, e, f) refl,
        rows ∙ ap (λ u. u.programs) exact ∙ ap (λ ps. ps ++ row_of n ∷ []) g.programs,
        links,
        (λ j g x. more j g (subst (λ u. has_link u.program_assets j g ≡ true) (sym exact) x)),
        all,
      )

  queued :
      (text : String) (base_dir : Option String) (d : Daemon) (v : Validated) (q : Program)
      (out : MaterializedAssets) (w : Store)
      → validate_value host text ≡ some (ok v)
      → store_submission host (or_fresh host v.program.id) v.program base_dir d.store
        ≡ (ok (q, out), w)
      → handle_submit host text base_dir d
        ≡ some (
            if d.connected
            then (
              ok (submitted (or_fresh host v.program.id) v.program.name),
              record d {
                store = w;
                sent = d.sent ++ submit_validated (or_fresh host v.program.id) q out.bytes ∷ [];
              },
            )
            else (err (simple daemon_busy "scheduler command queue full"), record d { store = w }))
  unfolding handle_submit send_command
  queued text base_dir d v q out w valid e = elim (Bool-cases d.connected) [
    | inl received ↦ rw (valid, handle_submit, e, received) refl
    | inr gone ↦ rw (valid, handle_submit, e, gone) refl
  ]

  -- A submission that is valid, whose images can be read and whose id is new, in a store that is
  -- sound and has a row for every file: the program is added as a pending row with its canonical
  -- text, each of its images is linked to it, no link that the images' preparation leaves is lost,
  -- the store stays sound, and the scheduler is given the program with the bytes of its images.
  -- Where the scheduler no longer receives, the answer is that the daemon is busy, and the row is
  -- there all the same.
  pub handle_submit-stores :
      (text : String) (base_dir : Option String) (d : Daemon) (v : Validated) (q : Program)
      (t : Store) (out : MaterializedAssets) (source : String)
      → HasIntegrity d.store
      → IsStocked d.store
      → validate_value host text ≡ some (ok v)
      → find_row (or_fresh host v.program.id) d.store.programs ≡ none
      → materialize_template_assets host.files base_dir host.now_ms d.store v.program
        ≡ (ok q, (t, out))
      → host.source_text q ≡ ok source
      → (w : Store) × (handle_submit host text base_dir d
          ≡ some (
              if d.connected
              then (
                ok (submitted (or_fresh host v.program.id) v.program.name),
                record d {
                  store = w;
                  sent = d.sent ++ submit_validated (or_fresh host v.program.id) q out.bytes ∷ [];
                },
              )
              else (
                err (simple daemon_busy "scheduler command queue full"),
                record d { store = w },
              )))
        × (w.programs
            ≡ d.store.programs ++ row_of (new_row host (or_fresh host v.program.id) q source) ∷ [])
        × All (λ h. has_link w.program_assets (or_fresh host v.program.id) h ≡ true) out.hashes
        × KeepsLinks t w
        × HasIntegrity w
  handle_submit-stores text base_dir d v q t out source sound stocked valid free made txt =
      let pid = or_fresh host v.program.id in
      let (w, e, rows, links, more, all) =
        store_submission-HasIntegrity pid v.program q base_dir d.store t out source sound stocked
          free made txt in
      (w, queued text base_dir d v q out w valid e, rows, links, more, all)
