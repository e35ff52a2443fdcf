-- ===== src/Ffi/Processes.antt =====
-- crates/sg-ffi/src/view.rs: the busiest processes.
use server_glass.Base.{
  ℕ, max, Bool, true, false, not, none, some, List, Text, codes, text_eq, find, filter, map, take,
  get, if◌then◌else◌, ◌>>=◌, unwrap_or, [],
}
use server_glass.Base.Float.{FloatOps}
use server_glass.Base.Sort.{sort_with}
use server_glass.Model.Ids.{EntityId}
use server_glass.Model.Entity.{Entity, EntityKind, process}
use server_glass.Model.Measure.{percent}
use server_glass.Core.Store.{LiveStore, latest}
use server_glass.Core.Store.Views.{series_for, children_of}
use server_glass.Ffi.View.{clamp, severity_of}

pub record ProcessView (F : Type 0) : Type 0 where
  pub pid : Text
  pub command : Text
  pub cpu_percent : F
  pub memory_bytes : F
  pub state : Text
  pub machine_fraction : F
  pub severity : Text

abbrev pub is_process : EntityKind → Bool
is_process process = true
is_process _ = false

module _ {F : Type 0} ⦃fl : FloatOps F⦄ where
  -- The closure `value`.
  unfoldable pub reading_of : LiveStore F → EntityId → Text → F
  unfolding series_for find latest
  reading_of store entity metric =
      elim (find (λ d. text_eq d.metric metric) (series_for store entity) >>= λ d.
      latest store d.id) [ none ↦ fl.of_nat 0 | some p ↦ p.value ]

  unfoldable pub process_view : LiveStore F → F → Entity → ProcessView F
  unfolding reading_of get severity_of
  process_view store machine e =
      let cpu = reading_of store e.id (codes "cpu") in
      record {
        pid = e.display;
        command = unwrap_or e.display (get (codes "command") e.labels);
        cpu_percent = cpu;
        memory_bytes = reading_of store e.id (codes "rss");
        state = unwrap_or [] (get (codes "state") e.labels);
        machine_fraction = clamp (fl.div cpu machine) (fl.of_nat 0) (fl.of_nat 1);
        severity =
            severity_of percent (fl.mul (fl.div cpu machine) (fl.of_nat 100))
              (some (fl.of_nat 100));
      }

  -- The comparison is not `Greater`: by the processor, the busier first, then by memory.
  unfoldable pub not_after : ProcessView F → ProcessView F → Bool
  not_after a b =
      if fl.lt a.cpu_percent b.cpu_percent
      then false
      else if fl.lt b.cpu_percent a.cpu_percent
      then true
      else not (fl.lt a.memory_bytes b.memory_bytes)

  unfoldable pub top_processes : LiveStore F → EntityId → ℕ → ℕ → List (ProcessView F)
  unfolding process_view children_of filter sort_with not_after
  top_processes store host limit cpu_count =
      let machine = fl.mul (fl.of_nat (max cpu_count 1)) (fl.of_nat 100) in
      take limit (
        sort_with not_after (
          map (process_view store machine)
            (filter (λ e. is_process e.kind) (children_of store host))))
