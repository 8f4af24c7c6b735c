-- ===== src/Freezing/Samples.antt =====
-- Plain objects of conary, on which tuples are frozen and thawed in examples.
use rmake.Base.{ℕ, refl}
use rmake.Freezing.{Conary, ConaryLaws}

-- Each object is a number, and is frozen as itself.
abbrev pub plain : Conary
plain = record {
  Version = ℕ;
  Flavor = ℕ;
  Label = ℕ;
  DepSet = ℕ;
  freeze_version = λ n. n;
  thaw_version = λ n. n;
  freeze_flavor = λ n. n;
  thaw_flavor = λ n. n;
  label_to_str = λ n. n;
  label_of_str = λ n. n;
  freeze_deps = λ n. n;
  thaw_deps = λ n. n;
  no_flavor = 0;
}

pub plain-ConaryLaws : ConaryLaws plain
plain-ConaryLaws = record {
  version = λ n. refl;
  flavor = λ n. refl;
  label = λ n. refl;
  deps = λ n. refl;
  empty = refl;
}
