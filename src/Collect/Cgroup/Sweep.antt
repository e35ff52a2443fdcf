-- ===== src/Collect/Cgroup/Sweep.antt =====
-- crates/sg-collect/src/cgroup.rs: the cgroups of a sweep.
use server_glass.Base.{
  ◌≡◌, refl, ap, ◌∙◌, Option, some, List, [], ◌∷◌, ◌++◌, Text, codes, map, filter_map, strip_prefix,
  trim, lines, split_once, is_whitespace, Option-cases, inl, inr, ◌>>=◌, append_assoc, append-nil,
  arith,
}
use server_glass.Collect.Cgroup.{
  CgroupStats, parse_cgroups, cgroups_of, cgroup_line, set_reading, update_last,
}

-- The path of a line that starts a cgroup.
abbrev pub header : Text → Option Text
header line = strip_prefix (codes "#") line >>= λ p. some (trim p)

abbrev paths_of : List CgroupStats → List Text
paths_of cs = map (λ c. c.path) cs

set_reading-path : (key value : Text) (c : CgroupStats) → (set_reading key value c).path ≡ c.path
unfolding set_reading
set_reading-path key value c = ground arith

update_last-paths :
    (key value : Text) (cs : List CgroupStats)
    → paths_of (update_last (set_reading key value) cs) ≡ paths_of cs
unfolding update_last
update_last-paths key value [] = refl
update_last-paths key value (c ∷ []) = ap (λ p. p ∷ []) (set_reading-path key value c)
update_last-paths key value (c ∷ d ∷ cs) =
    ap (λ r. c.path ∷ r) (update_last-paths key value (d ∷ cs))

paths_of-snoc :
    (cs : List CgroupStats) (c : CgroupStats) → paths_of (cs ++ c ∷ []) ≡ paths_of cs ++ c.path ∷ []
paths_of-snoc [] c = refl
paths_of-snoc (d ∷ cs) c = ap (λ r. d.path ∷ r) (paths_of-snoc cs c)

cgroup_line-paths :
    (l : Text) (ls : List Text) (out : List CgroupStats)
    → paths_of (cgroup_line l out) ++ filter_map header ls
      ≡ paths_of out ++ filter_map header (l ∷ ls)
unfolding cgroup_line filter_map
cgroup_line-paths l ls out = elim (Option-cases (strip_prefix (codes "#") l)) [
  | inr (p, e) ↦
      rw (e, paths_of-snoc out _) (append_assoc (paths_of out) (trim p ∷ []) (filter_map header ls))
  | inl e ↦ elim (Option-cases (split_once is_whitespace l)) [
    | inl n ↦ rw (e, n) refl
    | inr (kv, q) ↦ rw (e, q, update_last-paths (kv.0) (trim (kv.1)) out) refl
  ]
]

cgroups_of-paths :
    (ls : List Text) (out : List CgroupStats)
    → paths_of (cgroups_of ls out) ≡ paths_of out ++ filter_map header ls
unfolding cgroups_of filter_map
cgroups_of-paths [] out = simp append-nil
cgroups_of-paths (l ∷ ls) out = cgroups_of-paths ls (cgroup_line l out) ∙ cgroup_line-paths l ls out

-- A sweep yields one cgroup for each of its header lines, in their order and under the header's
-- path; no other line starts, removes or renames one.
pub parse_cgroups-paths :
    (text : Text) → map (λ c. c.path) (parse_cgroups text) ≡ filter_map header (lines text)
unfolding parse_cgroups
parse_cgroups-paths text = cgroups_of-paths (lines text) []
