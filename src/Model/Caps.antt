-- ===== src/Model/Caps.antt =====
-- crates/sg-model/src/caps.rs: what a host can tell, and what a source needs of it. The sets of
-- programs and of paths are lists.
use server_glass.Base.{ℕ, Bool, List, [], ◌∷◌, Text, text_eq, any, all, ◌&&◌, ◌==◌, if◌then◌else◌}
use server_glass.Base.Float.{FloatOps}

pub data Coreutils : Type 0 where
  gnu busybox unknown : Coreutils

pub data CgroupVersion : Type 0 where
  v1 v2 unknown : CgroupVersion

pub record Capabilities : Type 0 where
  pub kernel : Text
  pub distro : Text
  pub arch : Text
  pub hostname : Text
  pub coreutils : Coreutils
  pub cgroup : CgroupVersion
  pub cpu_count : ℕ
  pub clock_ticks : ℕ
  pub page_size : ℕ
  pub binaries : List Text
  pub paths : List Text

abbrev pub contains : List Text → Text → Bool
contains xs a = any (λ x. text_eq x a) xs

-- `Capabilities::has`
unfoldable pub has : Capabilities → Text → Bool
has caps binary = contains caps.binaries binary

unfoldable pub has_path : Capabilities → Text → Bool
has_path caps path = contains caps.paths path

-- `Capabilities::tick_seconds`
unfoldable pub tick_seconds : {F : Type 0} ⦃fl : FloatOps F⦄ → Capabilities → F
tick_seconds ⦃fl⦄ caps =
    if caps.clock_ticks == 0
    then fl.div (fl.of_nat 1) (fl.of_nat 100)
    else fl.div (fl.of_nat 1) (fl.of_nat caps.clock_ticks)

pub record Requirements : Type 0 where
  pub binaries : List Text
  pub paths : List Text

-- `Requirements::NONE`
unfoldable pub no_requirements : Requirements
no_requirements = record { binaries = []; paths = [] }

-- `Requirements::binary` and `Requirements::path`
unfoldable pub needs_binary : Text → Requirements
needs_binary name = record { binaries = name ∷ []; paths = [] }

unfoldable pub needs_path : Text → Requirements
needs_path path = record { binaries = []; paths = path ∷ [] }

-- `Requirements::satisfied_by`
unfoldable pub satisfied_by : Requirements → Capabilities → Bool
unfolding has has_path
satisfied_by r caps = all (has caps) r.binaries && all (has_path caps) r.paths
