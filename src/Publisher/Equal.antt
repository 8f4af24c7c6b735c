-- ===== src/Publisher/Equal.antt =====
-- A cork changes when a subscriber is told, and in how many calls, but not what it is told.
use rmake.Base.{
  ℕ, append-nil, append_assoc, inl, inr, Option-cases, subst, ap, ◌+◌, ◌≡◌, refl, sym, ◌∙◌, Bool,
  true, false, List, [], ◌∷◌, ◌++◌, ◌==◌, arith,
}
use rmake.Base.Dict.{Dict, NodupKeys, insert-NodupKeys, lookup, insert}
use rmake.Publisher.{
  Notice, Call, Publisher, cork, uncork, emit, emit_each, flush, keep_notice, keep_each, get_list,
  listener_calls, dispatcher_calls,
}
use rmake.Publisher.Corking.{kept_of, times, kept_of-keep_each, heard, heard-append, heard-flush}

keep_notice-NodupKeys :
    (b : Bool) (n : Notice) (x : ℕ) (d : Dict (Bool × List Notice))
    → NodupKeys d
    → NodupKeys (keep_notice b n x d)
unfolding keep_notice
keep_notice-NodupKeys b n x d u = elim (Option-cases (lookup x d)) [
  | inl e ↦
      let q : keep_notice b n x d ≡ insert x (b, n ∷ []) d = ground (arith, e) in
      subst NodupKeys (sym q) (insert-NodupKeys x (b, n ∷ []) d u)
  | inr ((k, l), e) ↦
      let q : keep_notice b n x d ≡ insert x (k, l ++ n ∷ []) d = ground (arith, e) in
      subst NodupKeys (sym q) (insert-NodupKeys x (k, l ++ n ∷ []) d u)
]

keep_each-NodupKeys :
    (b : Bool) (n : Notice) (xs : List ℕ) (d : Dict (Bool × List Notice))
    → NodupKeys d
    → NodupKeys (keep_each b n xs d)
unfolding keep_each
keep_each-NodupKeys b n [] d u = u
keep_each-NodupKeys b n (x ∷ xs) d u =
    keep_each-NodupKeys b n xs (keep_notice b n x d) (keep_notice-NodupKeys b n x d u)

heard-listener_calls :
    (fn : ℕ) (n : Notice) (l : List ℕ) → heard fn (listener_calls n l) ≡ times fn l n
heard-listener_calls fn n [] = refl
heard-listener_calls fn n (x ∷ xs) = ground (arith, heard-listener_calls fn n xs)

heard-dispatcher_calls :
    (fn : ℕ) (n : Notice) (l : List ℕ) → heard fn (dispatcher_calls n l) ≡ times fn l n
heard-dispatcher_calls fn n [] = refl
heard-dispatcher_calls fn n (x ∷ xs) = ground (arith, heard-dispatcher_calls fn n xs)

-- What the subscriptions say that a subscriber is told.
abbrev pub told : ℕ → List Notice → Publisher → List Notice
told fn [] s = []
told fn (n ∷ ns) s =
    (times fn (get_list n.event s.dispatchers) n ++ times fn (get_list n.event s.listeners) n)
    ++ told fn ns s

same-told :
    (fn : ℕ) (ns : List Notice) (s t : Publisher)
    → s.dispatchers ≡ t.dispatchers
    → s.listeners ≡ t.listeners
    → told fn ns s ≡ told fn ns t
same-told fn [] s t p q = refl
same-told fn (n ∷ ns) s t p q = rw (same-told fn ns s t p q) (rw p (rw q refl))

abbrev keep : Notice → Publisher → Publisher
keep n s = record s {
  to_emit =
      keep_each false n (get_list n.event s.listeners)
        (keep_each true n (get_list n.event s.dispatchers) s.to_emit);
}

emit-corked : (n : Notice) (s : Publisher) → (s.corked == 0) ≡ false → emit n s ≡ (keep n s, [])
unfolding emit
emit-corked n s h = rw h refl

kept_of-keep :
    (fn : ℕ) (n : Notice) (s : Publisher)
    → kept_of fn (keep n s).to_emit ≡ kept_of fn s.to_emit ++ told fn (n ∷ []) s
kept_of-keep fn n s =
    let ds = get_list n.event s.dispatchers in
    let ls = get_list n.event s.listeners in
    ground (
      arith,
      kept_of-keep_each false n fn ls (keep_each true n ds s.to_emit),
      kept_of-keep_each true n fn ds s.to_emit,
      append_assoc (kept_of fn s.to_emit) (times fn ds n) (times fn ls n),
      append-nil (times fn ds n ++ times fn ls n),
    )

record Kept (ns : List Notice) (s : Publisher) : Type 0 where
  silent : (emit_each ns s).1 ≡ []
  still : (emit_each ns s).0.corked ≡ s.corked
  unique : NodupKeys (emit_each ns s).0.to_emit
  missed : (fn : ℕ) → kept_of fn (emit_each ns s).0.to_emit ≡ kept_of fn s.to_emit ++ told fn ns s

emit_each-Kept :
    (ns : List Notice) (s : Publisher) → (s.corked == 0) ≡ false → NodupKeys s.to_emit → Kept ns s
unfolding emit_each
emit_each-Kept [] s h u = record {
  silent = refl;
  still = refl;
  unique = u;
  missed = λ fn. sym (append-nil (kept_of fn s.to_emit));
}
emit_each-Kept (n ∷ ns) s h u =
    let r = emit_each-Kept ns (keep n s) h (
      keep_each-NodupKeys false n (get_list n.event s.listeners) _
        (keep_each-NodupKeys true n (get_list n.event s.dispatchers) s.to_emit u)) in
    let e = emit-corked n s h in
    record {
      silent = rw e r.silent;
      still = rw e r.still;
      unique = rw e r.unique;
      missed = λ fn. rw e (
          ground (
            arith,
            r.missed fn,
            kept_of-keep fn n s,
            same-told fn ns (keep n s) s refl refl,
            append_assoc (kept_of fn s.to_emit) (told fn (n ∷ []) s) (told fn ns s),
            append-nil (
                times fn (get_list n.event s.dispatchers) n
                ++ times fn (get_list n.event s.listeners) n),
          ));
    }

record Heard (ns : List Notice) (s : Publisher) : Type 0 where
  same_corked : (emit_each ns s).0.corked ≡ 0
  same_empty : (emit_each ns s).0.to_emit ≡ []
  all_told : (fn : ℕ) → heard fn (emit_each ns s).1 ≡ told fn ns s

calls_of : Notice → Publisher → List Call
calls_of n s =
    (dispatcher_calls n (get_list n.event s.dispatchers)
      ++ listener_calls n (get_list n.event s.listeners))
    ++ []

emit-uncorked :
    (n : Notice) (s : Publisher)
    → s.corked ≡ 0
    → s.to_emit ≡ []
    → emit n s ≡ (record s { corked = 0; to_emit = [] }, calls_of n s)
unfolding emit uncork cork flush calls_of
emit-uncorked n s h e = rw h (rw e refl)

heard-calls_of :
    (fn : ℕ) (n : Notice) (s : Publisher) → heard fn (calls_of n s) ≡ told fn (n ∷ []) s
unfolding calls_of
heard-calls_of fn n s =
    let ds = get_list n.event s.dispatchers in
    let ls = get_list n.event s.listeners in
    ground (
      arith,
      heard-append fn (dispatcher_calls n ds ++ listener_calls n ls) [],
      heard-append fn (dispatcher_calls n ds) (listener_calls n ls),
      heard-dispatcher_calls fn n ds,
      heard-listener_calls fn n ls,
      append-nil (times fn ls n),
      append-nil (times fn ds n ++ times fn ls n),
    )

emit_each-Heard : (ns : List Notice) (s : Publisher) → s.corked ≡ 0 → s.to_emit ≡ [] → Heard ns s
unfolding emit_each
emit_each-Heard [] s h e = record { same_corked = h; same_empty = e; all_told = λ fn. refl }
emit_each-Heard (n ∷ ns) s h e =
    let t = record s { corked = 0; to_emit = [] } in
    let r = emit_each-Heard ns t refl refl in
    let q = emit-uncorked n s h e in
    record {
      same_corked = rw q r.same_corked;
      same_empty = rw q r.same_empty;
      all_told = λ fn. rw q (
          ground (
            arith,
            heard-append fn (calls_of n s) (emit_each ns t).1,
            heard-calls_of fn n s,
            r.all_told fn,
            same-told fn ns t s refl refl,
            append-nil (
                times fn (get_list n.event s.dispatchers) n
                ++ times fn (get_list n.event s.listeners) n),
          ));
    }

uncork-last : (t : Publisher) → t.corked ≡ 1 → (uncork t).1 ≡ flush t.to_emit
unfolding uncork
uncork-last t h = rw h refl

kept_of-nil :
    (fn : ℕ) (d : Dict (Bool × List Notice)) (l : List Notice) → d ≡ [] → kept_of fn d ++ l ≡ l
unfolding lookup
kept_of-nil fn d l e = rw e refl

-- With nothing kept and no cork, a cork, any notices and an uncorking tell no one anything before
-- the uncorking, and each subscriber then hears the notices that it would have heard without the
-- cork, in the same order.
pub cork-emit_each :
    (ns : List Notice) (s : Publisher)
    → s.corked ≡ 0
    → s.to_emit ≡ []
    → ((emit_each ns (cork s)).1 ≡ [])
      × ((fn : ℕ) → heard fn (uncork (emit_each ns (cork s)).0).1 ≡ heard fn (emit_each ns s).1)
unfolding cork
cork-emit_each ns s h e =
    let k = emit_each-Kept ns (cork s) (ground (arith, h)) (subst NodupKeys (sym e) tt) in
    let u = (emit_each ns (cork s)).0 in
    (
      k.silent,
      λ fn.
          ap (heard fn) (uncork-last u (k.still ∙ ap (λ x. x + 1) h))
          ∙ heard-flush fn u.to_emit k.unique
          ∙ k.missed fn
          ∙ kept_of-nil fn s.to_emit (told fn ns (cork s)) e
          ∙ same-told fn ns (cork s) s refl refl
          ∙ sym ((emit_each-Heard ns s h e).all_told fn),
    )
