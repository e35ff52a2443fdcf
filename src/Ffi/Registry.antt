-- ===== src/Ffi/Registry.antt =====
-- crates/sg-ffi/src/lib.rs: the registry of targets, and what a run of the poll loop may publish.
-- A run is known by the generation it was started with; `finished` is what `is_finished` answers.
pub mod Stale
pub mod Reached
pub mod Lookup
use server_glass.Base.{
  ℕ, ◌+◌, ◌%◌, ◌^◌, Bool, true, false, not, ◌&&◌, Option, none, some, List, [], ◌∷◌, ◌++◌, Text,
  codes, Map, get, insert, remove, keys, if◌then◌else◌, ◌>>=◌, ◌==◌, ◌⊎◌, inl, inr, show_nat, trim,
  is_empty, max, min,
}
use server_glass.Base.Float.{FloatOps}
use server_glass.Base.Sort.{sort_by}
use server_glass.Ffi.State.{ConnectionState, idle, connecting, is_online}
use server_glass.Ffi.Snapshot.{TargetSnapshot, set_state, placeholder}
use server_glass.Ffi.Spec.{TargetConfig}

pub data SgError : Type 0 where
  unknown_target : Text → SgError
  connection : Text → Bool → SgError
  internal : Text → SgError

-- `RunningTask`
pub record Run : Type 0 where
  pub generation : ℕ
  pub finished : Bool

pub record Target (F : Type 0) : Type 0 where
  pub config : TargetConfig
  pub snapshot : TargetSnapshot F
  pub task : Option Run
  pub generation : ℕ

pub record ServerGlass (F : Type 0) : Type 0 where
  pub targets : Map (Target F)
  pub next_id : ℕ

-- `slot.as_ref().is_some_and(|t| !t.handle.is_finished())`
abbrev pub is_running : Option Run → Bool
is_running none = false
is_running (some r) = not r.finished

-- The interval between refreshes: `refresh_ms.clamp(250, 60_000)`.
unfoldable pub interval_ms : TargetConfig → ℕ
interval_ms c = min (max c.refresh_ms 250) 60000

-- What becomes of a command before it is sent to the run: an answer at once, or the text to run.
pub data Admission : Type 0 where
  answered : Admission
  refused : SgError → Admission
  queued : Text → Admission

module _ {F : Type 0} where
  -- `ServerGlass::new`
  unfoldable pub new_registry : ServerGlass F
  new_registry = record { targets = []; next_id = 0 }

  -- `ServerGlass::target`
  unfoldable pub target : ServerGlass F → Text → SgError ⊎ Target F
  unfolding get
  target sg id = elim (get id sg.targets) [ none ↦ inl (unknown_target id) | some t ↦ inr t ]

  -- `ServerGlass::snapshot`
  unfoldable pub snapshot : ServerGlass F → Text → SgError ⊎ TargetSnapshot F
  unfolding target
  snapshot sg id = elim (target sg id) [ inl e ↦ inl e | inr t ↦ inr t.snapshot ]

  -- `ServerGlass::target_ids`
  unfoldable pub target_ids : ServerGlass F → List Text
  unfolding sort_by
  target_ids sg = sort_by (λ id. id) (keys sg.targets)

  -- The new snapshot of a finished tick: the current run replaces the snapshot, a stale one leaves it.
  unfoldable pub publish_snapshot : Target F → ℕ → TargetSnapshot F → Target F
  publish_snapshot t generation s =
      if t.generation == generation then record t { snapshot = s } else t

  -- `ServerGlass::run_command` up to the wait for the answer.
  unfoldable pub admit : Target F → Text → Admission
  unfolding trim
  admit t command =
      let words = trim command in
      if is_empty words
      then answered
      else if is_running t.task && is_online t.snapshot.state
      then queued words
      else refused
          (connection (codes "This server is not connected, so the command was not run.") true)

module _ {F : Type 0} ⦃fl : FloatOps F⦄ (to_lowercase : Text → Text) where
  -- The closure `publish` of `poll_loop`.
  unfoldable pub publish : Target F → ℕ → ConnectionState → Target F
  unfolding set_state
  publish t generation state =
      if t.generation == generation
      then record t { snapshot = set_state to_lowercase t.snapshot state }
      else t

  -- The part of `ServerGlass::start` behind the look-up.
  unfoldable pub start_target : Target F → Target F
  unfolding set_state
  start_target t =
      let generation = (t.generation + 1) % 2 ^ 64 in
      if is_running t.task then t else record t {
        snapshot = set_state to_lowercase t.snapshot connecting;
        task = some (record { generation = generation; finished = false });
        generation = generation;
      }

  -- The part of `ServerGlass::stop` behind the look-up.
  unfoldable pub stop_target : Target F → Target F
  unfolding set_state
  stop_target t = record t {
    snapshot = set_state to_lowercase t.snapshot idle;
    task = none;
    generation = (t.generation + 1) % 2 ^ 64;
  }

  -- The target that `add_target` inserts.
  unfoldable pub new_target : Text → TargetConfig → Target F
  unfolding placeholder
  new_target id config = record {
    config = config;
    snapshot = placeholder to_lowercase id config.host idle;
    task = none;
    generation = 0;
  }

  -- `ServerGlass::add_target`
  unfoldable pub add_target : ServerGlass F → TargetConfig → ServerGlass F × Text
  unfolding show_nat insert new_target
  add_target sg config =
      let next = (sg.next_id + 1) % 2 ^ 64 in
      let id = codes "t" ++ show_nat next in
      (record { targets = insert id (new_target id config) sg.targets; next_id = next }, id)

  -- `ServerGlass::start`, `ServerGlass::stop` and `ServerGlass::remove_target`
  unfoldable pub start : ServerGlass F → Text → ServerGlass F × Option SgError
  unfolding target start_target insert
  start sg id = elim (target sg id) [
    | inl e ↦ (sg, some e)
    | inr t ↦ (record sg { targets = insert id (start_target t) sg.targets }, none)
  ]

  unfoldable pub stop : ServerGlass F → Text → ServerGlass F × Option SgError
  unfolding target stop_target insert
  stop sg id = elim (target sg id) [
    | inl e ↦ (sg, some e)
    | inr t ↦ (record sg { targets = insert id (stop_target t) sg.targets }, none)
  ]

  unfoldable pub remove_target : ServerGlass F → Text → ServerGlass F × Option SgError
  unfolding stop remove
  remove_target sg id = elim ((stop sg id).1) [
    | some e ↦ ((stop sg id).0, some e)
    | none ↦ (record (stop sg id).0 { targets = remove id (stop sg id).0.targets }, none)
  ]
