-- ===== src/Sessions/Active.antt =====
-- The closers of the sessions: `CloseSession` closes what was registered, once and in order.
use navmesh_go.Base.{
  ℕ, ◌≡◌, ◌∙◌, refl, ap, true, false, Option, none, some, List, [], ◌∷◌, ◌++◌, arith, if◌then◌else◌,
  is_some, All, ◌≢◌, not, or_zero,
}
use navmesh_go.Base.Text.{Text, is_empty, eq_text, eq_text_iff}
use navmesh_go.Base.Map.{get, delete, get-put, get-delete, get-empty}
use navmesh_go.Sessions.{
  Registry, new_registry, is_nil, register_session, unregister_session, mark_forced, close_session,
  consume_force_closed, closers_of, Op, register, unregister, close, consume, step, run,
}

module _ {Closer : Type 0} where
  -- The call is about another guid.
  abbrev pub Other : Text → ℕ × Op Closer → Type 0
  Other g (now, register h cs) = h ≢ g
  Other g (now, unregister h) = h ≢ g
  Other g (now, close h) = h ≢ g
  Other g (now, consume h) = Unit

  abbrev session : Registry Closer → Text → Option (List Closer)
  session r g = get r.sessions g

  mark_forced-sessions :
      (now : ℕ) (g : Text) (cs : List Closer) (r : Registry Closer)
      → (mark_forced now g cs r).sessions ≡ r.sessions
  unfolding mark_forced
  mark_forced-sessions now g [] r = refl
  mark_forced-sessions now g (c ∷ cs) r = refl

  session-register :
      (now : ℕ) (h g : Text) (cs : List Closer) (r : Registry Closer)
      → is_empty h ≡ false
      → is_nil cs ≡ false
      → session (register_session now h cs r) g
        ≡ (if eq_text h g then some (closers_of r h ++ cs) else session r g)
  unfolding register_session
  session-register now h g cs r named filled =
      ground (arith, get-put r.sessions h g (closers_of r h ++ cs))

  session-close :
      (now : ℕ) (h g : Text) (r : Registry Closer)
      → is_empty h ≡ false
      → session (close_session now h r).0 g ≡ (if eq_text h g then none else session r g)
  unfolding close_session
  session-close now h g r named = ground (
    arith,
    mark_forced-sessions now h (closers_of r h) (record r { sessions = delete r.sessions h }),
    get-delete r.sessions h g,
  )

  session-step-Other :
      (r : Registry Closer) (g : Text) (c : ℕ × Op Closer)
      → Other g c
      → session (step r c) g ≡ session r g
  unfolding step register_session unregister_session close_session consume_force_closed
  session-step-Other r g (now, register h cs) o =
      ground (arith, get-put r.sessions h g (closers_of r h ++ cs), eq_text_iff h g)
  session-step-Other r g (now, unregister h) o =
      ground (arith, get-delete r.sessions h g, eq_text_iff h g)
  session-step-Other r g (now, close h) o = ground (
    arith,
    mark_forced-sessions now h (closers_of r h) (record r { sessions = delete r.sessions h }),
    get-delete r.sessions h g,
    eq_text_iff h g,
  )
  session-step-Other r g (now, consume h) o = ground arith

  session-run-Other :
      (r : Registry Closer) (g : Text) (cs : List (ℕ × Op Closer))
      → All (Other g) cs
      → session (run r cs) g ≡ session r g
  unfolding run
  session-run-Other r g [] o = refl
  session-run-Other r g (c ∷ cs) o =
      session-run-Other (step r c) g cs o.1 ∙ session-step-Other r g c o.0

  close_session_lem :
      (now : ℕ) (g : Text) (r : Registry Closer)
      → is_empty g ≡ false
      → ((close_session now g r).1 ≡ closers_of r g)
        × ((close_session now g r).2 ≡ not (is_nil (closers_of r g)))
  unfolding close_session
  close_session_lem now g r named = ground arith

  is_nil-append : (xs ys : List Closer) → is_nil ys ≡ false → is_nil (xs ++ ys) ≡ false
  is_nil-append [] ys h = h
  is_nil-append (x ∷ xs) ys h = refl

  closers_of-register :
      (now : ℕ) (g : Text) (cs : List Closer) (r : Registry Closer)
      → is_empty g ≡ false
      → is_nil cs ≡ false
      → closers_of (step r (now, register g cs)) g ≡ closers_of r g ++ cs
  unfolding step
  closers_of-register now g cs r named filled =
      ground (arith, session-register now g g cs r named filled, eq_text_iff g g)

  closers_of-close :
      (now : ℕ) (g : Text) (r : Registry Closer)
      → is_empty g ≡ false
      → closers_of (close_session now g r).0 g ≡ []
  closers_of-close now g r named = ground (arith, session-close now g g r named, eq_text_iff g g)

  closers_of-run-Other :
      (r : Registry Closer) (g : Text) (cs : List (ℕ × Op Closer))
      → All (Other g) cs
      → closers_of (run r cs) g ≡ closers_of r g
  closers_of-run-Other r g cs o = ap (λ s. or_zero s []) (session-run-Other r g cs o)

  closers_of-register_twice :
      (t₁ t₂ : ℕ) (g : Text) (r : Registry Closer) (a : Closer) (xs ys : List Closer)
      (between : List (ℕ × Op Closer))
      → is_empty g ≡ false
      → is_nil ys ≡ false
      → All (Other g) between
      → closers_of (step (run (step r (t₁, register g (a ∷ xs))) between) (t₂, register g ys)) g
        ≡ (closers_of r g ++ a ∷ xs) ++ ys
  closers_of-register_twice t₁ t₂ g r a xs ys between named more o =
      closers_of-register t₂ g ys (run (step r (t₁, register g (a ∷ xs))) between) named more
      ∙ ap (λ cs. cs ++ ys)
          (closers_of-run-Other (step r (t₁, register g (a ∷ xs))) g between o
            ∙ closers_of-register t₁ g (a ∷ xs) r named refl)

  -- Closers registered for a guid in two calls are closed by `CloseSession` in the order of their
  -- registration, after those that were there, with any calls on other guids in between; the call
  -- returns true, and a second one, after any calls on other guids, closes nothing and returns false.
  pub close-register :
      (t₁ t₂ t₃ t₄ : ℕ) (g : Text) (r : Registry Closer) (a : Closer) (xs ys : List Closer)
      (between : List (ℕ × Op Closer)) (after : List (ℕ × Op Closer))
      → is_empty g ≡ false
      → is_nil ys ≡ false
      → All (Other g) between
      → All (Other g) after
      → let filled = run (step r (t₁, register g (a ∷ xs))) between in
        let closed = close_session t₃ g (step filled (t₂, register g ys)) in
        let again = close_session t₄ g (run closed.0 after) in
        (closed.1 ≡ (closers_of r g ++ a ∷ xs) ++ ys)
        × (closed.2 ≡ true)
        × (again.1 ≡ [])
        × (again.2 ≡ false)
  close-register t₁ t₂ t₃ t₄ g r a xs ys between after named more o₁ o₂ =
      let filled = step (run (step r (t₁, register g (a ∷ xs))) between) (t₂, register g ys) in
      let all = closers_of-register_twice t₁ t₂ g r a xs ys between named more o₁ in
      let first = close_session_lem t₃ g filled named in
      let later = run (close_session t₃ g filled).0 after in
      let none_left : closers_of later g ≡ [] =
        closers_of-run-Other (close_session t₃ g filled).0 g after o₂
        ∙ closers_of-close t₃ g filled named in
      let second = close_session_lem t₄ g later named in
      (
        first.0 ∙ all,
        first.1
            ∙ ap (λ cs. not (is_nil cs)) all
            ∙ ap not (is_nil-append (closers_of r g ++ a ∷ xs) ys more),
        second.0 ∙ none_left,
        second.1 ∙ ap (λ cs. not (is_nil cs)) none_left,
      )

  -- No session is kept with an empty list of closers.
  pub record IsFilled (r : Registry Closer) : Type 0 where
    pub at : (g : Text) → session r g ≢ some []

  append-ne-nil : (xs ys : List Closer) → is_nil ys ≡ false → some (xs ++ ys) ≢ some []
  append-ne-nil [] [] h e = cc
  append-ne-nil [] (y ∷ ys) h e = cc
  append-ne-nil (x ∷ xs) ys h e = cc

  -- Every call keeps the registry free of sessions without closers.
  step-IsFilled : (r : Registry Closer) (c : ℕ × Op Closer) → IsFilled r → IsFilled (step r c)
  unfolding step register_session unregister_session close_session consume_force_closed
  step-IsFilled r (now, register h cs) v = record {
    at = λ g e. ground (
      arith,
      get-put r.sessions h g (closers_of r h ++ cs),
      v.at g,
      append-ne-nil (closers_of r h) cs,
    );
  }
  step-IsFilled r (now, unregister h) v = record {
    at = λ g e. ground (arith, get-delete r.sessions h g, v.at g);
  }
  step-IsFilled r (now, close h) v = record {
    at = λ g e. ground (
      arith,
      mark_forced-sessions now h (closers_of r h) (record r { sessions = delete r.sessions h }),
      get-delete r.sessions h g,
      v.at g,
    );
  }
  step-IsFilled r (now, consume h) v = record { at = λ g e. ground (arith, v.at g) }

  run-IsFilled :
      (r : Registry Closer) (cs : List (ℕ × Op Closer)) → IsFilled r → IsFilled (run r cs)
  unfolding run
  run-IsFilled r [] v = v
  run-IsFilled r (c ∷ cs) v = run-IsFilled (step r c) cs (step-IsFilled r c v)

  new-IsFilled : IsFilled new_registry
  unfolding new_registry
  new-IsFilled = record { at = λ g e. cc (get-empty {V = List Closer} g) }

  filled_is_some :
      (o : Option (List Closer)) → o ≢ some [] → not (is_nil (or_zero o [])) ≡ is_some o
  filled_is_some none h = refl
  filled_is_some (some []) h = absurd (h refl)
  filled_is_some (some (c ∷ cs)) h = refl

  -- In every registry that calls can reach, `CloseSession` on a guid that is not empty returns true
  -- exactly when the guid has a session.
  pub close-run_iff :
      (now : ℕ) (g : Text) (history : List (ℕ × Op Closer))
      → is_empty g ≡ false
      → (close_session now g (run new_registry history)).2
        ≡ is_some (get (run new_registry history).sessions g)
  close-run_iff now g history named =
      let r = run (new_registry {Closer = Closer}) history in
      (close_session_lem now g r named).1
      ∙ filled_is_some (session r g) ((run-IsFilled new_registry history new-IsFilled).at g)
