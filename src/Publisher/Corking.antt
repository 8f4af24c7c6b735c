-- ===== src/Publisher/Corking.antt =====
-- What a cork does: nothing is told until the last uncorking, and then each subscriber is told
-- everything that it missed, in order.
use rmake.Base.{
  ℕ, append-nil, append_assoc, ◌≡◌, refl, sym, Bool, true, false, none, some, List, [], ◌∷◌, ◌++◌,
  ◌==◌, if◌then◌else◌, arith, Option-cases, inl, inr, ==_iff,
}
use rmake.Base.Dict.{Dict, lookup, lookup-insert, NodupKeys}
use rmake.Publisher.{
  Notice, Call, listener_call, dispatcher_call, flush, call_each, keep_notice, keep_each,
}

-- The notices that are kept for a subscriber.
abbrev pub kept_of : ℕ → Dict (Bool × List Notice) → List Notice
kept_of fn d = elim (lookup fn d) [ none ↦ [] | some (_, l) ↦ l ]

abbrev pub times : ℕ → List ℕ → Notice → List Notice
times fn [] n = []
times fn (x ∷ xs) n = let rest = times fn xs n in if fn == x then n ∷ rest else rest

kept_of-keep_notice :
    (b : Bool) (n : Notice) (fn x : ℕ) (d : Dict (Bool × List Notice))
    → kept_of fn (keep_notice b n x d) ≡ (if fn == x then kept_of fn d ++ n ∷ [] else kept_of fn d)
unfolding keep_notice
kept_of-keep_notice b n fn x d = elim (Option-cases (lookup x d)) [
  | inl e ↦ ground (arith, e, lookup-insert fn x (b, n ∷ []) d, ==_iff fn x)
  | inr ((k, l), e) ↦ ground (arith, e, lookup-insert fn x (k, l ++ n ∷ []) d, ==_iff fn x)
]

pub kept_of-keep_each :
    (b : Bool) (n : Notice) (fn : ℕ) (xs : List ℕ) (d : Dict (Bool × List Notice))
    → kept_of fn (keep_each b n xs d) ≡ kept_of fn d ++ times fn xs n
unfolding keep_each
kept_of-keep_each b n fn [] d = sym (append-nil (kept_of fn d))
kept_of-keep_each b n fn (x ∷ xs) d = ground (
  arith,
  kept_of-keep_each b n fn xs (keep_notice b n x d),
  kept_of-keep_notice b n fn x d,
  append_assoc (kept_of fn d) (n ∷ []) (times fn xs n),
)

-- The notices that a subscriber hears in a list of calls, in their order.
abbrev pub heard : ℕ → List Call → List Notice
heard fn [] = []
heard fn (listener_call g n ∷ cs) = let rest = heard fn cs in if fn == g then n ∷ rest else rest
heard fn (dispatcher_call g l ∷ cs) = let rest = heard fn cs in if fn == g then l ++ rest else rest

pub heard-append : (fn : ℕ) (cs ds : List Call) → heard fn (cs ++ ds) ≡ heard fn cs ++ heard fn ds
heard-append fn [] ds = refl
heard-append fn (listener_call g n ∷ cs) ds = ground (arith, heard-append fn cs ds)
heard-append fn (dispatcher_call g l ∷ cs) ds =
    ground (arith, heard-append fn cs ds, append_assoc l (heard fn cs) (heard fn ds))

heard-call_each :
    (fn g : ℕ) (l : List Notice) → heard fn (call_each g l) ≡ (if fn == g then l else [])
unfolding call_each
heard-call_each fn g [] = ground arith
heard-call_each fn g (n ∷ ns) = ground (arith, heard-call_each fn g ns)

heard-flush-none :
    (fn : ℕ) (d : Dict (Bool × List Notice)) → lookup fn d ≡ none → heard fn (flush d) ≡ []
unfolding flush lookup
heard-flush-none fn [] h = refl
heard-flush-none fn ((g, (true, l)) ∷ d) h = ground (arith, h, heard-flush-none fn d)
heard-flush-none fn ((g, (false, l)) ∷ d) h = ground (
  arith,
  h,
  heard-flush-none fn d,
  heard-append fn (call_each g l) (flush d),
  heard-call_each fn g l,
)

pub heard-flush :
    (fn : ℕ) (d : Dict (Bool × List Notice)) → NodupKeys d → heard fn (flush d) ≡ kept_of fn d
unfolding flush lookup
heard-flush fn [] u = refl
heard-flush fn ((g, (true, l)) ∷ d) u =
    ground (arith, u, heard-flush fn d, heard-flush-none fn d, ==_iff fn g, append-nil l)
heard-flush fn ((g, (false, l)) ∷ d) u = ground (
  arith,
  u,
  heard-flush fn d,
  heard-flush-none fn d,
  ==_iff fn g,
  append-nil l,
  heard-append fn (call_each g l) (flush d),
  heard-call_each fn g l,
)
