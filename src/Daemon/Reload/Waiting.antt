-- ===== src/Daemon/Reload/Waiting.antt =====
-- crates/vcli-daemon/src/startup.rs: which commands a restart sends.
use vcli.Prelude.{
  suc, String, ◌≡◌, refl, sym, ap, ◌∙◌, inl, inr, true, false, Option, none, some, List, [], ◌∷◌,
  ◌++◌, map, if◌then◌else◌, length, Result, ok, err, Result-cases,
}
use mathlib.Core.List.{append-nil, append_assoc}
use vcli.Core.State.{waiting}
use vcli.Core.Program.{ProgramId, Program}
use vcli.Store.Rows.{Store, ProgramRow, list_programs}
use vcli.Store.Gc.Integrity.{HasIntegrity}
use vcli.Dsl.Validation.{Validated}
use vcli.Dsl.Error.{DslError}
use vcli.Dsl.Validation.Promises.{finish-answers}
use vcli.Runtime.Program.{SchedulerCommand, submit_validated}
use vcli.Daemon.Assets.{
  Outcome, MaterializedAssets, AssetMaterializeError, materialize_template_assets,
}
use vcli.Daemon.Assets.Stocked.{IsStocked}
use vcli.Daemon.Assets.Gathering.{materialize-IsGathered}
use vcli.Daemon.Service.{Daemon, Host, validate_value, send_command}
use vcli.Daemon.Reload.{
  Reloaded, materialized, add_reloaded, reload_valid, reload_text, reload_row, reload_rows,
  send_all, reload_waiting_programs,
}

-- Some of the items of a list, in its order.
pub data IsSublist {ℓ} {A : Type ℓ} : List A → List A → Type ℓ where
  nothing : IsSublist [] []
  kept : {xs ys : List A} (x : A) → IsSublist xs ys → IsSublist (x ∷ xs) (x ∷ ys)
  dropped : {xs ys : List A} (y : A) → IsSublist xs ys → IsSublist xs (y ∷ ys)

validate_value-answers :
    (host : Host) (text : String)
    → (r : Result DslError Validated) × (validate_value host text ≡ some r)
unfolding validate_value
validate_value-answers host text = elim (Result-cases (host.parse text)) [
  | inl (p, e) ↦ let (r, f) = finish-answers host.hash p in (r, rw (validate_value, e) f)
  | inr (x, e) ↦ (err x, rw (validate_value, e) refl)
]

abbrev pub command : Reloaded → SchedulerCommand
command r = submit_validated r.id r.program r.assets

abbrev pub row_id : ProgramRow → ProgramId
row_id r = r.id

abbrev pub identity : Reloaded → ProgramId
identity r = r.id

-- The rows and the soundness of a store.
record Keeps (rows : List ProgramRow) (s : Store) : Type 0 where
  programs : s.programs ≡ rows
  integrity : HasIntegrity s
  stocked : IsStocked s

-- How the rows in turn lead to the list that is sent and to the store: a row is skipped if its text
-- is no JSON or no valid program, or if an image of it cannot be had, in which case the store is
-- what the failed preparation leaves. Of every other row the prepared program is sent under the
-- row's id with the bytes of its images.
pub data Reloads (host : Host) : List ProgramRow → Store → List Reloaded → Store → Type 0 where
  done : {s : Store} → Reloads host [] s [] s
  unreadable :
      {r : ProgramRow} {rs : List ProgramRow} {s t : Store} {found : List Reloaded} (e : String)
      → host.read_json r.source_json ≡ err e
      → Reloads host rs s found t
      → Reloads host (r ∷ rs) s found t
  refused :
      {r : ProgramRow} {rs : List ProgramRow} {s t : Store} {found : List Reloaded} (e : DslError)
      → host.read_json r.source_json ≡ ok tt
      → validate_value host r.source_json ≡ some (err e)
      → Reloads host rs s found t
      → Reloads host (r ∷ rs) s found t
  imageless :
      {r : ProgramRow} {rs : List ProgramRow} {s t : Store} {found : List Reloaded} (v : Validated)
      (e : AssetMaterializeError) (u : Store) (out : MaterializedAssets)
      → host.read_json r.source_json ≡ ok tt
      → validate_value host r.source_json ≡ some (ok v)
      → materialize_template_assets host.files none host.now_ms s v.program ≡ (err e, (u, out))
      → Reloads host rs u found t
      → Reloads host (r ∷ rs) s found t
  prepared :
      {r : ProgramRow} {rs : List ProgramRow} {s t : Store} {found : List Reloaded} (v : Validated)
      (q : Program) (u : Store) (out : MaterializedAssets)
      → host.read_json r.source_json ≡ ok tt
      → validate_value host r.source_json ≡ some (ok v)
      → materialize_template_assets host.files none host.now_ms s v.program ≡ (ok q, (u, out))
      → Reloads host rs u found t
      → Reloads host (r ∷ rs) s (record { id = r.id; program = q; assets = out.bytes } ∷ found) t

Reloads-sublist :
    (host : Host) (rs : List ProgramRow) (s t : Store) (found : List Reloaded)
    → Reloads host rs s found t
    → IsSublist (map identity found) (map row_id rs)
Reloads-sublist host _ _ _ _ done = nothing
Reloads-sublist host (r ∷ rs) s t found (unreadable e x h) =
    dropped r.id (Reloads-sublist host rs s t found h)
Reloads-sublist host (r ∷ rs) s t found (refused e x y h) =
    dropped r.id (Reloads-sublist host rs s t found h)
Reloads-sublist host (r ∷ rs) s t found (imageless v e u out x y z h) =
    dropped r.id (Reloads-sublist host rs u t found h)
Reloads-sublist host (r ∷ rs) s t (f ∷ found) (prepared v q u out x y z h) =
    kept r.id (Reloads-sublist host rs u t found h)

-- The store is kept, and the rows go on from what the row `r` gives.
abbrev Found : Host → List ProgramRow → ProgramRow → Store → Option Reloaded × Store → Type 0
Found host rows r s (o, u) =
    Keeps rows u
    × ((rs : List ProgramRow) (found : List Reloaded) (t : Store)
        → Reloads host rs u found t
        → Reloads host (r ∷ rs) s (add_reloaded o found) t)

send_command-connected :
    (c : SchedulerCommand) (d : Daemon)
    → d.connected ≡ true
    → send_command c d ≡ (true, record d { sent = d.sent ++ c ∷ [] })
unfolding send_command
send_command-connected c d h =
    ap (λ b. if b then (true, record d { sent = d.sent ++ c ∷ [] }) else (false, d)) h

send_all-sends :
    (rs : List Reloaded) (d : Daemon)
    → d.connected ≡ true
    → send_all rs d ≡ (length rs, record d { sent = d.sent ++ map command rs })
unfolding send_all
send_all-sends [] d h = ap (λ l. (0, record d { sent = l })) (sym (append-nil d.sent))
send_all-sends (r ∷ rs) d h =
    let next = send_all-sends rs (record d { sent = d.sent ++ command r ∷ [] }) h in
    rw (send_command-connected (command r) d h, next)
      (ap (λ l. (suc (length rs), record d { sent = l }))
        (append_assoc d.sent (command r ∷ []) (map command rs)))

module _ (host : Host) where
  materialized-Found :
      (rows : List ProgramRow) (r : ProgramRow) (s : Store) (v : Validated) (o : Outcome Program)
      → host.read_json r.source_json ≡ ok tt
      → validate_value host r.source_json ≡ some (ok v)
      → materialize_template_assets host.files none host.now_ms s v.program ≡ o
      → Keeps rows o.1.0
      → Found host rows r s (materialized r.id o)
  materialized-Found rows r s v (err e, (u, out)) x y z h =
      (h, λ rs found t rest. imageless v e u out x y z rest)
  materialized-Found rows r s v (ok q, (u, out)) x y z h =
      (h, λ rs found t rest. prepared v q u out x y z rest)

  reload_valid-Found :
      (rows : List ProgramRow) (r : ProgramRow) (s : Store) (v : Result DslError Validated)
      → host.read_json r.source_json ≡ ok tt
      → validate_value host r.source_json ≡ some v
      → Keeps rows s
      → (x : Option Reloaded × Store) × (reload_valid host r s (some v) ≡ some x)
        × Found host rows r s x
  reload_valid-Found rows r s (err e) x y h =
      ((none, s), refl, (h, λ rs found t rest. refused e x y rest))
  reload_valid-Found rows r s (ok v) x y h =
      let made =
        materialize-IsGathered host.files none host.now_ms s v.program h.integrity h.stocked in
      (
        _,
        refl,
        materialized-Found rows r s v
            (materialize_template_assets host.files none host.now_ms s v.program) x y refl
            (record {
              programs = made.programs ∙ h.programs;
              integrity = made.integrity;
              stocked = made.stocked;
            }),
      )

  reload_text-Found :
      (rows : List ProgramRow) (r : ProgramRow) (s : Store) (x : Result String (Unit {0}))
      → host.read_json r.source_json ≡ x
      → Keeps rows s
      → (y : Option Reloaded × Store) × (reload_text host r s x ≡ some y) × Found host rows r s y
  reload_text-Found rows r s (err e) x h =
      ((none, s), refl, (h, λ rs found t rest. unreadable e x rest))
  reload_text-Found rows r s (ok tt) x h =
      let (v, e) = validate_value-answers host r.source_json in
      rw e (reload_valid-Found rows r s v x e h)

  reload_rows-Reloads :
      (rows rs : List ProgramRow) (s : Store)
      → Keeps rows s
      → (found : List Reloaded) × (t : Store) × (reload_rows host rs s ≡ some (found, t))
        × Keeps rows t
        × Reloads host rs s found t
  unfolding reload_rows reload_row
  reload_rows-Reloads rows [] s h = ([], s, refl, h, done)
  reload_rows-Reloads rows (r ∷ rs) s h =
      let ((o, u), e, (k, c)) = reload_text-Found rows r s (host.read_json r.source_json) refl h in
      let (rest, t, f, l, more) = reload_rows-Reloads rows rs u k in
      (add_reloaded o rest, t, rw (reload_rows, reload_row, e, f) refl, l, c rs rest t more)

  -- On a sound store and while the scheduler runs, the reload after a restart always answers. It
  -- goes through the waiting programs in order, and sends the scheduler one submission for each
  -- whose text is still a valid program and whose images can be had: under its id, the program with
  -- its images in place, and their bytes. The others it skips, and it returns how many it sent. The
  -- store keeps its rows of programs and stays sound.
  pub reload-sends :
      (d : Daemon)
      → HasIntegrity d.store
      → IsStocked d.store
      → d.connected ≡ true
      → (found : List Reloaded) × (t : Store) × (reload_waiting_programs host d
          ≡ some (length found, record d { store = t; sent = d.sent ++ map command found }))
        × Reloads host (list_programs d.store (some waiting)) d.store found t
        × IsSublist (map identity found) (map row_id (list_programs d.store (some waiting)))
        × (t.programs ≡ d.store.programs)
        × HasIntegrity t
  unfolding reload_waiting_programs
  reload-sends d sound stocked connected =
      let (found, t, e, k, steps) =
        reload_rows-Reloads d.store.programs (list_programs d.store (some waiting)) d.store
          (record { programs = refl; integrity = sound; stocked = stocked }) in
      (
        found,
        t,
        rw (reload_waiting_programs, e)
            (ap some (send_all-sends found (record d { store = t }) connected)),
        steps,
        Reloads-sublist host (list_programs d.store (some waiting)) d.store t found steps,
        k.programs,
        k.integrity,
      )
