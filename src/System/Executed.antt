-- ===== src/System/Executed.antt =====
-- `execute` of src/scheduler.cpp for a task that is in no group and whose body sends nothing: the
-- task waits again, or it runs again at once because notifications were pending.
use tasking_framework.Base.{
  ℕ, suc, ◌+◌, ◌≡◌, ◌≤◌, ◌<◌, ◌∙◌, ◌==◌, refl, inl, inr, ◌⊎◌, Bool-cases, eq_of_test, differ, ap,
  sym, true, false, Option, none, some, List, [], ◌∷◌, arith, Ptr, ◌∈◌, ◌∉◌, has, length,
  if◌then◌else◌, Distinct, remove,
}
use mathlib.Core.Path.{subst}
use tasking_framework.Input.Counts.{IsConsistent}
use tasking_framework.Policy.Interface.{SchedulePolicy}
use tasking_framework.System.World.{
  task_wait, task_run, World, Platform, Kind, plain, barrier, derived,
}
use tasking_framework.System.Queued.{IsQueued}
use tasking_framework.System.Reset.{finalize_in, finalize_execution}
use tasking_framework.System.Restart.{waits, runs}
use tasking_framework.System.Execution.{
  synchronize_start, synchronize_end, input_start, input_end, sync_start_of, sync_end_of, execute,
}
use tasking_framework.System.Connected.{has-remove-other}
use tasking_framework.System.Counting.{in_turn, total, SameWiring, SameWiring-trans}
use tasking_framework.System.Counting.Consumed.{reset-Consumes}

length-remove : (a : ℕ) (xs : List ℕ) → a ∈ xs → suc (length (remove a xs)) ≤ length xs
length-remove a [] m = absurd (cc)
length-remove a (x ∷ xs) m = ground (arith, length-remove a xs)

-- Distinct numbers that are all in another list are no more than it holds.
Distinct-length-subset :
    (xs ys : List ℕ) → Distinct xs → ((a : ℕ) → a ∈ xs → a ∈ ys) → length xs ≤ length ys
Distinct-length-subset [] ys d sub = omega arith
Distinct-length-subset (x ∷ xs) ys d sub =
    let shorter = length-remove x ys (sub x (ground arith)) in
    let rest =
      Distinct-length-subset xs (remove x ys) d.1
        (λ a m. has-remove-other x a ys (differ a x xs m d.0) ∙ sub a (ground arith)) in
    omega (arith, shorter, rest)

module _ (policy : SchedulePolicy) {E C : Type 0} (platform : Platform E) (time : E → C) where
  open policy use {State, tasks, place, has-place, Holds-Distinct}

  -- The application's part of the state is changed at most, and not the time.
  abbrev pub Stays : Option (World State E) → World State E → Type 0
  Stays r w = (e : E) × (r ≡ some (record w { rest = e })) × (time e ≡ time w.rest)

  -- Neither the tasks' bodies nor the channels of other classes send anything or change the time.
  pub record IsQuiet (body : ℕ → World State E → Option (World State E)) : Type 0 where
    pub resets : (c : ℕ) (e : E) → time (platform.channel_reset c e) ≡ time e
    pub starts : (c t n : ℕ) (e : E) → time (platform.synchronize_start c t n e) ≡ time e
    pub ends : (c t : ℕ) (e : E) → time (platform.synchronize_end c t e) ≡ time e
    pub bodies : (t : ℕ) (w : World State E) → Stays (body t w) w

  -- The run queue holds these tasks, every task in TASK_RUN is one of the application's, and each of
  -- those is in no group and has the inputs that it names; the counters of the inputs are consistent.
  pub record IsSound (w : World State E) (xs : List ℕ) : Type 0 where
    pub queued : IsQueued policy platform w xs
    pub known : (a : ℕ) → (w.tasks a).state ≡ task_run → a < tasks
    pub consistent : (i : ℕ) → IsConsistent (w.inputs i)
    pub own : (t : ℕ) → t < tasks → (i : ℕ) → i ∈ (w.tasks t).inputs → (w.inputs i).task ≡ some t
    pub bound : (t : ℕ) → t < tasks → (i : ℕ) → i ∈ (w.tasks t).inputs → i < platform.inputs
    pub alone : (t : ℕ) → t < tasks → (w.tasks t).group ≡ none

  pub IsSound-after :
      (w w' : World State E) (xs ys : List ℕ)
      → IsSound w xs
      → SameWiring policy platform time w w'
      → IsQueued policy platform w' ys
      → ((a : ℕ) → (w'.tasks a).state ≡ task_run → a < tasks)
      → ((i : ℕ) → IsConsistent (w'.inputs i))
      → IsSound w' ys
  IsSound-after w w' xs ys s wiring q known c = record {
    queued = q;
    known = known;
    consistent = c;
    own = λ t b i m. wiring.owner i ∙ s.own t b i (subst (λ is. i ∈ is) (wiring.members t) m);
    bound = λ t b i m. s.bound t b i (subst (λ is. i ∈ is) (wiring.members t) m);
    alone = λ t b. wiring.groups t ∙ s.alone t b;
  }

  module _ (body : ℕ → World State E → Option (World State E)) (quiet : IsQuiet body) where
    sync_start_of-Stays :
        (k : Kind) (c t n : ℕ) (w : World State E)
        → Stays (some (sync_start_of policy platform k c t n w)) w
    unfolding sync_start_of
    sync_start_of-Stays plain c t n w = (w.rest, refl, refl)
    sync_start_of-Stays barrier c t n w = (w.rest, refl, refl)
    sync_start_of-Stays derived c t n w =
        (platform.synchronize_start c t n w.rest, refl, quiet.starts c t n w.rest)

    sync_end_of-Stays :
        (k : Kind) (c t : ℕ) (w : World State E)
        → Stays (some (sync_end_of policy platform k c t w)) w
    unfolding sync_end_of
    sync_end_of-Stays plain c t w = (w.rest, refl, refl)
    sync_end_of-Stays barrier c t w = (w.rest, refl, refl)
    sync_end_of-Stays derived c t w =
        (platform.synchronize_end c t w.rest, refl, quiet.ends c t w.rest)

    input_start-Stays :
        (p q : Ptr) (t n : ℕ) (w : World State E)
        → q ≡ some t
        → Stays (input_start policy platform p q n w) w
    unfolding input_start
    input_start-Stays none q t n w e = (w.rest, refl, refl)
    input_start-Stays (some c) q t n w e =
        subst (λ q'. Stays (input_start policy platform (some c) q' n w) w) (sym e)
          (sync_start_of-Stays (w.channels c).kind c t n w)

    input_end-Stays :
        (p q : Ptr) (t : ℕ) (w : World State E)
        → q ≡ some t
        → Stays (input_end policy platform p q w) w
    unfolding input_end
    input_end-Stays none q t w e = (w.rest, refl, refl)
    input_end-Stays (some c) q t w e =
        subst (λ q'. Stays (input_end policy platform (some c) q' w) w) (sym e)
          (sync_end_of-Stays (w.channels c).kind c t w)

    synchronize_start-Stays :
        (t : ℕ) (is : List ℕ) (w : World State E)
        → ((i : ℕ) → i ∈ is → (w.inputs i).task ≡ some t)
        → Stays (synchronize_start policy platform is w) w
    unfolding synchronize_start
    synchronize_start-Stays t [] w own = (w.rest, refl, refl)
    synchronize_start-Stays t (i ∷ is) w own =
        let (e, done, same) =
          input_start-Stays (w.inputs i).channel (w.inputs i).task t (w.inputs i).notifications w
            (own i (ground arith)) in
        let (e', done', same') =
          synchronize_start-Stays t is (record w { rest = e }) (λ j m. own j (ground arith)) in
        (e', in_turn (synchronize_start policy platform is) done done', same' ∙ same)

    synchronize_end-Stays :
        (t : ℕ) (is : List ℕ) (w : World State E)
        → ((i : ℕ) → i ∈ is → (w.inputs i).task ≡ some t)
        → Stays (synchronize_end policy platform is w) w
    unfolding synchronize_end
    synchronize_end-Stays t [] w own = (w.rest, refl, refl)
    synchronize_end-Stays t (i ∷ is) w own =
        let (e, done, same) =
          input_end-Stays (w.inputs i).channel (w.inputs i).task t w (own i (ground arith)) in
        let (e', done', same') =
          synchronize_end-Stays t is (record w { rest = e }) (λ j m. own j (ground arith)) in
        (e', in_turn (synchronize_end policy platform is) done done', same' ∙ same)

    in_three :
        (t : ℕ) (w w₁ w₂ w₃ : World State E)
        → synchronize_start policy platform (w.tasks t).inputs w ≡ some w₁
        → body t w₁ ≡ some w₂
        → synchronize_end policy platform (w₂.tasks t).inputs w₂ ≡ some w₃
        → execute policy platform body t w ≡ finalize_execution policy platform t w₃
    unfolding execute
    in_three t w w₁ w₂ w₃ d₁ d₂ d₃ = rw (d₁, d₂, d₃) refl

    -- What is left to the end of `execute`.
    execute-finalize :
        (t : ℕ) (w : World State E)
        → ((i : ℕ) → i ∈ (w.tasks t).inputs → (w.inputs i).task ≡ some t)
        → (e : E) × (execute policy platform body t w
            ≡ finalize_execution policy platform t (record w { rest = e }))
          × (time e ≡ time w.rest)
    execute-finalize t w own =
        let (e₁, d₁, s₁) = synchronize_start-Stays t (w.tasks t).inputs w own in
        let (e₂, d₂, s₂) = quiet.bodies t (record w { rest = e₁ }) in
        let (e₃, d₃, s₃) =
          synchronize_end-Stays t (w.tasks t).inputs (record w { rest = e₂ }) own in
        (e₃, in_three t w _ _ _ d₁ d₂ d₃, s₃ ∙ s₂ ∙ s₁)

    -- The outcome of the execution of a task that has been taken out of the run queue.
    pub record Executes (t : ℕ) (w : World State E) (xs : List ℕ) (w' : World State E)
        : Type 0 where
      pub queue : List ℕ
      pub sound : IsSound w' queue
      pub wiring : SameWiring policy platform time w w'
      pub fewer :
          length queue + total w'.inputs platform.inputs
          ≤ length xs + total w.inputs platform.inputs
      pub others : (a : ℕ) → (t == a) ≡ false → w'.tasks a ≡ w.tasks a
      pub places : (a : ℕ) → (t == a) ≡ false → has a queue ≡ has a xs
      pub ended : (t ∈ queue) ⊎ ((w'.tasks t).state ≡ task_wait)

    place_length :
        (t : ℕ) (s : State) (xs : List ℕ)
        → policy.Holds s (place t xs)
        → length (place t xs) ≤ suc (length xs)
    place_length t s xs h =
        Distinct-length-subset (place t xs) (t ∷ xs) (Holds-Distinct s (place t xs) h)
          (λ a m. sym (has-place a t xs) ∙ m)

    known_after :
        (t : ℕ) (w w' : World State E)
        → t < tasks
        → ((a : ℕ) → (t == a) ≡ false → w'.tasks a ≡ w.tasks a)
        → ((a : ℕ) → (w.tasks a).state ≡ task_run → a < tasks)
        → (a : ℕ) → (w'.tasks a).state ≡ task_run
        → a < tasks
    known_after t w w' b others known a r = elim (Bool-cases (t == a)) [
      | inl e ↦ subst (λ n. n < tasks) (eq_of_test t a e) b
      | inr n ↦ known a (sym (ap (λ task. task.state) (others a n)) ∙ r)
    ]

    pub execute-Executes :
        (t : ℕ) (w : World State E) (xs : List ℕ)
        → IsSound w xs
        → t < tasks
        → t ∉ xs
        → w.running ≡ true
        → (w' : World State E) × (execute policy platform body t w ≡ some w') × Executes t w xs w'
    unfolding finalize_execution
    execute-Executes t w xs s b out on =
        let (e, finalizes, same) = execute-finalize t w (s.own t b) in
        let v = record w { rest = e } in
        let (w', done, r, u, k) =
          reset-Consumes policy platform time quiet.resets t v xs b
            (record { holds = s.queued.holds; in_run = s.queued.in_run }) out s.consistent
            (s.bound t b) (s.own t b) in
        let wiring =
          SameWiring-trans policy platform time w v w'
            (record {
              lists = λ c. refl;
              next = λ i. refl;
              owner = λ i. refl;
              thresholds = λ i. refl;
              members = λ a. refl;
              groups = λ a. refl;
              running = refl;
              times = same;
            })
            k.wiring in
        (
          w',
          finalizes ∙ ap (λ p. finalize_in policy platform p t v) (s.alone t b) ∙ done,
          elim r [
            | waits state q ↦ record {
              queue = xs;
              sound =
                  IsSound-after w w' xs xs s wiring q (known_after t w w' b u.others s.known)
                    k.consistent;
              wiring = wiring;
              fewer = omega (arith, k.less);
              others = u.others;
              places = λ a ne. refl;
              ended = inr state;
            }
            | runs state q ↦
                (let q' =
                    subst (λ r. IsQueued policy platform w' (if r then place t xs else xs)) on q in
                  let l = place_length t w'.queue xs q'.holds in
                  let less = k.again state in
                  record {
                    queue = place t xs;
                    sound =
                        IsSound-after w w' xs (place t xs) s wiring q'
                          (known_after t w w' b u.others s.known) k.consistent;
                    wiring = wiring;
                    fewer = omega (arith, less, l);
                    others = u.others;
                    places = λ a ne. ground (arith, has-place a t xs);
                    ended = inl (ground (arith, has-place t t xs));
                  })
          ],
        )
