-- ===== src/Engine/Commit/Registered/Started.antt =====
-- A new engine is started and the broker's registration is the first mutation that it gets: the steps
-- around `processBuffer`.
use osqueue.Base.{
  ℕ, ◌≡◌, refl, ap, sym, ◌∙◌, subst, inl, inr, ◌&&◌, [], ◌∷◌, ◌++◌, Option, none, some, String,
  Bool-cases, ltb, length,
}
use mathlib.Core.List.{append-nil}
use osqueue.Types.{JobId, StorageVersion, QueueState, Mutation}
use osqueue.Types.Errors.{Result, ok, thrown, is_cas_conflict}
use osqueue.Queue.{empty_state}
use osqueue.Storage.{StorageBackend}
use osqueue.Engine.{
  Codec, Options, Engine, World, reject_all, wrap_engine, submit, schedule_loop, new_engine,
}
use osqueue.Engine.Commit.{
  attempts, drained, process, process_buffer, reject_buffer, reschedule, submit_all, resume,
  write_loop, state_not_created, ensure_state_exists, start,
}
use osqueue.Engine.Commit.Coherence.{Result-cases}
use osqueue.Engine.Commit.Registered.{
  quiet, IsQuiet, registration, Told, Leaves, attempts-Leaves, refresh_cache-IsQuiet,
}

module _ (uuid : ℕ → JobId) (K : Codec) (S : StorageBackend K.Bytes) (eo : Options) (name : String)
    (at : ℕ) where
  open S use {State}

  Told-from :
      (w u : World State)
      → u.engine.settled ≡ w.engine.settled
      → u.engine.cached_state ≡ w.engine.cached_state
      → u.store ≡ w.store
      → Told uuid K S eo name at w
      → Told uuid K S eo name at u
  Told-from w u e c s (inl h) = inl (record {
    state = h.state;
    named = h.named;
    beat = h.beat;
    cached = c ∙ h.cached;
    onto = h.onto;
    version = h.version;
    before = h.before;
    written = h.written ∙ ap (λ x. (ok h.version, x)) (sym s);
    result = h.result;
    settles = e ∙ h.settles;
  })
  Told-from w u e c s (inr (inl h)) = inr (inl (e ∙ h))
  Told-from w u e c s (inr (inr (x, h))) = inr (inr (x, e ∙ h))

  reschedule_keeps :
      (g : Engine)
      → let g' = reschedule uuid K S eo g in
        (g'.settled ≡ g.settled) × (g'.cached_state ≡ g.cached_state)
  unfolding reschedule schedule_loop
  reschedule_keeps g = elim (Bool-cases (g.running && ltb 0 (length g.buffer))) [
    | inl e ↦ rw e (refl, refl)
    | inr e ↦
        rw e (elim (Bool-cases g.running) [ inl f ↦ rw f (refl, refl) | inr f ↦ rw f (refl, refl) ])
  ]

  resume-Told :
      (r : Result (Unit {0})) (w : World State)
      → Leaves uuid K S eo name at w
      → Told uuid K S eo name at (resume uuid K S eo [] (r, w))
  unfolding resume reject_buffer submit_all reject_all
  resume-Told (ok _) w (h, empty) =
      let (e, c) = reschedule_keeps w.engine in Told-from w _ e c refl h
  resume-Told (thrown x) w (h, empty) =
      let (e, c) = reschedule_keeps (reject_buffer uuid K S eo x w.engine) in
      let none_left : (reject_buffer uuid K S eo x w.engine).settled ≡ w.engine.settled =
        ap (λ b. w.engine.settled ++ reject_all (wrap_engine x) b) empty ∙ append-nil _ in
      Told-from w _ (e ∙ none_left) c refl h

  submitted-Told :
      (clock : ℕ → ℕ) (c : Option QueueState) (v : Option StorageVersion) (t : Option ℕ) (d : ℕ)
      (s : State)
      → Told uuid K S eo name at (
          write_loop uuid K S eo clock [] (record {
            engine = submit (registration uuid K S eo name at).mutation (quiet 0 c v t d);
            store = s;
          }))
  unfolding write_loop process_buffer process submit schedule_loop drained
  submitted-Told clock c v t d s =
      let u : World State = record { engine = quiet 1 c v (some 0) d; store = s } in
      let (r, w) =
        attempts uuid K S eo eo.max_retries (registration uuid K S eo name at ∷ []) clock 0 u in
      resume-Told r w
        (attempts-Leaves uuid K S eo name at eo.max_retries clock 0 u (c, v, some 0, d, refl))

  ensure_state_exists-IsQuiet :
      (s : State)
      → IsQuiet 0
          (ensure_state_exists uuid K S eo
            (record { engine = quiet 0 none none none 0; store = s })).1.engine
  unfolding ensure_state_exists state_not_created
  ensure_state_exists-IsQuiet s =
      elim (Result-cases (S.create_if_not_exists eo.state_key (K.encode empty_state) s).0) [
        | inl (v, er) ↦ rw (er, ensure_state_exists) (some empty_state, some v, none, 0, refl)
        | inr (e, er) ↦ elim (Bool-cases (is_cas_conflict e)) [
          | inl c ↦
              rw (er, ensure_state_exists)
                (rw c (
                  refresh_cache-IsQuiet uuid K S eo name at 0 none none none 0
                    (S.create_if_not_exists eo.state_key (K.encode empty_state) s).1))
          | inr c ↦ rw (er, ensure_state_exists) (rw c (none, none, none, 0, refl))
        ]
      ]

  scheduled-IsQuiet :
      (r : Result (Unit {0})) (u : World State)
      → IsQuiet 0 u.engine
      → let x : Result (Unit {0}) × World State = elim r [
        | thrown e ↦ (thrown e, u)
        | ok _ ↦ (ok tt, record u { engine = schedule_loop 0 u.engine })
      ] in
        IsQuiet 0 x.1.engine
  unfolding schedule_loop
  scheduled-IsQuiet (thrown e) u h = h
  scheduled-IsQuiet (ok _) u (c, v, t, d, e) =
      (c, v, some 0, d, ap (λ (g : Engine). record g { loop_timer = some 0 }) e)

  start-IsQuiet :
      (s : State)
      → IsQuiet 0 (start uuid K S eo (record { engine = new_engine; store = s })).1.engine
  unfolding start
  start-IsQuiet s =
      let w0 : World State = record { engine = quiet 0 none none none 0; store = s } in
      scheduled-IsQuiet (ensure_state_exists uuid K S eo w0).0
        (ensure_state_exists uuid K S eo w0).1 (ensure_state_exists-IsQuiet s)

  -- A new engine is started, the broker's (registration uuid K S eo name at) is submitted, and the write loop runs.
  pub start-Told :
      (clock : ℕ → ℕ) (s : State)
      → let w = (start uuid K S eo (record { engine = new_engine; store = s })).1 in
        (w.engine.next_ticket ≡ 0)
        × Told uuid K S eo name at (
            write_loop uuid K S eo clock []
              (record w { engine = submit (Mutation.register_broker name at) w.engine }))
  start-Told clock s =
      let w = (start uuid K S eo (record { engine = new_engine; store = s })).1 in
      let (c, v, t, d, e) = start-IsQuiet s in
      (
        ap (λ (g : Engine). g.next_ticket) e,
        subst
            (λ (g : Engine). Told uuid K S eo name at (
              write_loop uuid K S eo clock []
                (record { engine = submit (Mutation.register_broker name at) g; store = w.store })))
            (sym e) (submitted-Told clock c v t d w.store),
      )
