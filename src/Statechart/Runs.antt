-- ===== src/Statechart/Runs.antt =====
-- Steps and runs of a state machine: inversion, and invariants over any events.
use foxfire_sniper.Base.{
  List, [], ◌∷◌, Outcome, done, ◌>>=◌, Outcome-bind_inv, ◌≡◌, sym, ◌∙◌, subst, arith,
}
use foxfire_sniper.Statechart.{Response, handled, super, transition, Chart, Library, follow, step}

-- The state that a response leads to from `s`.
abbrev pub target : {S : Type 0} → S → Response S → S
target s handled = s
target s super = s
target s (transition t) = t

pub done-injective : {A : Type 0} {a b : A} → done a ≡ done b → a ≡ b
done-injective h = cc

module _ {C S E : Type 0} (m : Chart C S E) where
  pub step-parts :
      (e : E) (c : C) (s : S) {y : C × S}
      → step m e (c, s) ≡ done y
      → (x : C × Response S) × (m.respond e s c ≡ done x) × (follow m e s x ≡ done y)
  unfolding step
  step-parts e c s h = Outcome-bind_inv (m.respond e s c) (follow m e s) h

  pub follow-target :
      (e : E) (s : S) (c : C) (r : Response S) {y : C × S}
      → follow m e s (c, r) ≡ done y
      → y.1 ≡ target s r
  unfolding follow
  follow-target e s c handled h = ground arith
  follow-target e s c super h = ground arith
  follow-target e s c (transition t) h =
      let (c', _, h') = Outcome-bind_inv (m.leave e s c) _ h in
      let (c'', _, h'') = Outcome-bind_inv (m.enter e t c') _ h' in ground arith

  -- Where the library's machine takes a list of events, one after the other.
  module _ (lib : Library m) where
    unfoldable pub run : List E → C × S → Outcome (C × S)
    run [] x = done x
    run (e ∷ es) x = lib.handle e x >>= run es

    -- What every step keeps, every run keeps.
    pub run_invariant :
        (P : C × S → Type 0)
        → ((e : E) (x y : C × S) → P x → step m e x ≡ done y → P y)
        → (es : List E) (x : C × S) {y : C × S} → P x
        → run es x ≡ done y
        → P y
    unfolding run
    run_invariant P keep [] x p h = subst P (done-injective h) p
    run_invariant P keep (e ∷ es) x p h =
        let (x', h', r) = Outcome-bind_inv (lib.handle e x) (run es) h in
        run_invariant P keep es x' (keep e x x' p (sym (lib.handle_law e x.0 x.1) ∙ h')) r
