-- ===== src/Sync/Merge/Pins.antt =====
-- crates/sg-sync/src/merge.rs: the pinned host keys after a merge.
use server_glass.Base.{
  ◌+◌, ◌≡◌, refl, Bool, false, Option, none, some, Bool, Text, List, [], ◌∷◌, ◌++◌, arith, length,
  find, All, All-append, trim, length-append, Bool-cases, inl, inr, append_assoc, append-nil, sym,
  ◌∙◌,
}
use mathlib.Core.Path.{subst, ap}
use server_glass.Sync.Payload.{Payload}
use server_glass.Sync.Merge.{
  Merged, PinConflict, pins, pin_host, pin_key, same_key, merge_hosts, merge_held, merge_pin,
  is_skipped, merge_line, merge_lines, merge, merge_start,
}
use server_glass.Sync.Merge.Hosts.{merge_hosts-Extends}

find-append :
    (p : Text → Bool) (xs ys : List Text) (l : Text)
    → find p xs ≡ some l
    → find p (xs ++ ys) ≡ some l
unfolding find
find-append p [] ys l e = ground (arith, e)
find-append p (x ∷ xs) ys l e = elim (Bool-cases (p x)) [
  | inl y ↦ ground (arith, e, y)
  | inr n ↦ ground (arith, e, n, find-append p xs ys l)
]

-- A conflict names the line that is found for its host, and the two keys differ.
abbrev pub Explained : List Text → PinConflict → Type 0
Explained lines c =
    (find (pins c.host) lines ≡ some c.existing)
    × (same_key (pin_key c.existing) (pin_key c.incoming) ≡ false)

Explained-append :
    (lines more : List Text) (cs : List PinConflict)
    → All (Explained lines) cs
    → All (Explained (lines ++ more)) cs
Explained-append lines more [] a = a
Explained-append lines more (c ∷ cs) a = (
  (find-append (pins c.host) lines more c.existing a.0.0, a.0.1),
  Explained-append lines more cs a.1,
)

-- Lines are only added at the end, each is counted, and every conflict is explained.
pub record Grows (a b : Merged) : Type 0 where
  pub news : List Text
  pub lines : b.known_hosts ≡ a.known_hosts ++ news
  pub added : b.added_pins ≡ a.added_pins + length news
  pub explained :
      All (Explained a.known_hosts) a.conflicts → All (Explained b.known_hosts) b.conflicts

Grows-refl : (a : Merged) → Grows a a
Grows-refl a = record {
  news = [];
  lines = sym (append-nil a.known_hosts);
  added = omega arith;
  explained = λ x. x;
}

Grows-trans : (a b c : Merged) → Grows a b → Grows b c → Grows a c
Grows-trans a b c f g = record {
  news = f.news ++ g.news;
  lines = g.lines ∙ ap (λ x. x ++ g.news) f.lines ∙ append_assoc a.known_hosts f.news g.news;
  added = omega (arith, f.added, g.added, length-append f.news g.news);
  explained = λ x. g.explained (f.explained x);
}

merge_held-Grows :
    (host line : Text) (o : Option Text) (a : Merged)
    → find (pins host) a.known_hosts ≡ o
    → Grows a (merge_held host line o a)
unfolding merge_held
merge_held-Grows host line none a e = record {
  news = line ∷ [];
  lines = refl;
  added = refl;
  explained = λ x. Explained-append a.known_hosts (line ∷ []) a.conflicts x;
}
merge_held-Grows host line (some held) a e =
    elim (Bool-cases (same_key (pin_key held) (pin_key line))) [
      | inl y ↦ rw (y, merge_held) (Grows-refl a)
      | inr n ↦
          rw (n, merge_held)
            (record {
              news = [];
              lines = sym (append-nil a.known_hosts);
              added = omega arith;
              explained = λ x. All-append (Explained a.known_hosts) a.conflicts _ x ((e, n), tt);
            })
    ]

merge_pin-Grows : (line : Text) (o : Option Text) (a : Merged) → Grows a (merge_pin line o a)
unfolding merge_pin
merge_pin-Grows line none a = Grows-refl a
merge_pin-Grows line (some host) a =
    merge_held-Grows host line (find (pins host) a.known_hosts) a refl

merge_line-Grows : (line : Text) (a : Merged) → Grows a (merge_line line a)
unfolding merge_line
merge_line-Grows line a = elim (Bool-cases (is_skipped line)) [
  | inl y ↦ rw (y, merge_line) (Grows-refl a)
  | inr n ↦ rw (n, merge_line) (merge_pin-Grows line (pin_host line) a)
]

merge_lines-Grows : (ls : List Text) (a : Merged) → Grows a (merge_lines ls a)
unfolding merge_lines
merge_lines-Grows [] a = Grows-refl a
merge_lines-Grows (l ∷ ls) a =
    Grows-trans a (merge_line (trim l) a) (merge_lines ls (merge_line (trim l) a))
      (merge_line-Grows (trim l) a) (merge_lines-Grows ls (merge_line (trim l) a))

-- `Option::or`
abbrev pub or_else : Option Text → Option Text → Option Text
or_else (some l) o = some l
or_else none o = o

find-append_or :
    (p : Text → Bool) (xs ys : List Text) → find p (xs ++ ys) ≡ or_else (find p xs) (find p ys)
unfolding find
find-append_or p [] ys = refl
find-append_or p (x ∷ xs) ys = elim (Bool-cases (p x)) [
  | inl y ↦ ground (arith, y)
  | inr n ↦ ground (arith, n, find-append_or p xs ys)
]

-- What merging does to the pins, see `merge-pins`.
pub record MergesPins (existing : Payload) (out : Merged) : Type 0 where
  pub news : List Text
  pub lines : out.known_hosts ≡ existing.known_hosts ++ news
  pub added : out.added_pins ≡ length news
  pub explained : All (Explained out.known_hosts) out.conflicts
  pub held :
      (host : Text)
      → find (pins host) out.known_hosts
        ≡ or_else (find (pins host) existing.known_hosts) (find (pins host) news)

-- The known_hosts lines after a merge are those that were held, unchanged and first, then the new
-- ones, which the counter counts; the line that is found for a host afterwards is the one that was
-- found before, and one of the new lines only for a host that had none; and every conflict reported names the line that is held for its host,
-- whose key is not the one that came in.
pub merge-pins : (existing incoming : Payload) → MergesPins existing (merge existing incoming)
unfolding merge
merge-pins existing incoming =
    let start = merge_hosts-Extends incoming.hosts (merge_start existing) in
    let grown =
      merge_lines-Grows incoming.known_hosts (merge_hosts incoming.hosts (merge_start existing)) in
    let lines = grown.lines ∙ ap (λ x. x ++ grown.news) start.pins_kept in
    record {
      news = grown.news;
      lines = lines;
      added = omega (arith, grown.added, start.count_kept);
      explained = grown.explained (subst (All (Explained _)) (sym start.conflicts_kept) tt);
      held = λ host.
          ap (find (pins host)) lines ∙ find-append_or (pins host) existing.known_hosts grown.news;
    }
