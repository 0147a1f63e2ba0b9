-- ===== src/Entry/Serving.antt =====
-- What the program does without the flag of a dry run.
use kubernetes_kops_operator.Prelude.{
  String, ◌<>◌, Bool, true, false, not, Option, none, some, ◌∷◌, ◌≡◌, refl, ◌⊎◌, inl, inr,
}
use kubernetes_kops_operator.Prelude.Int.{ℤ, atoi}
use kubernetes_kops_operator.Io.{
  World, History, Io, Result, ok, err, panic, pure, fail, act, choose, maybe, error,
}
use kubernetes_kops_operator.Io.Emits.{Emits, same, more, Emits-act, Emits-perform, emits_rules}
use kubernetes_kops_operator.Io.Sure.{
  Since, Done, here, later, OnOk, Sure, Sure-bind, Sure-given, Sure-and, Sure-kept, Sure-weaken,
  Sure-pure, Sure-fail, Sure-perform, Sure-act, Sure-Emits, Sure-ask, all_effects,
}
use kubernetes_kops_operator.Outside.Call.{Call}
use kubernetes_kops_operator.Entry.Start.{
  Flags, default_worker_count, env_or, make_terraform_dir, worker_count, setup_with_manager,
  reconciler_of, prepare, main,
}

-- The text is the value of the variable, or the default where it is not set.
abbrev pub Configured : World → History → String → String → String → Type 0
Configured w h name default text =
    (j : History) × Since h j
    × ((w.answer j (Call.lookup_env name) ≡ ok (some text))
        ⊎ ((w.answer j (Call.lookup_env name) ≡ ok none) × (text ≡ default)))

-- The controller was completed with the workers that are configured.
abbrev pub Completed : World → Flags → History → History → Type 0
Completed w flags h k =
    (text : String) × (n : ℤ) × Configured w h "WORKER_COUNT" default_worker_count text
    × (atoi text ≡ some n)
    × Done w (Call.complete_controller flags.controller_class n) h k

Done-Since : {w : World} {c : Call} {h k : History} → Done w c h k → Since h k
Done-Since (here p e) = more _ refl p
Done-Since (later x d) = more x refl (Done-Since d)

module _ (w : World) (h : History) where
  env_or-Configured :
      (name default : String)
      → Sure w
          (Since h)
          (λ text k. Since h k × Configured w h name default text)
          (env_or name default)
  unfolding env_or
  env_or-Configured name default = Sure-bind _ _ _ (Sure-perform h (Call.lookup_env name)) found
    where
      found :
          (value : Option String)
          → Sure w
              (λ k.
                Since h k
                × ((j : History) × Since h j × (w.answer j (Call.lookup_env name) ≡ ok value)))
              (λ text k. Since h k × Configured w h name default text)
              (maybe value (pure default) pure)
      found none = Sure-pure default (λ k p. let (s, (j, q, e)) = p in (s, (j, q, inr (e, refl))))
      found (some text) = Sure-pure text (λ k p. let (s, (j, q, e)) = p in (s, (j, q, inl e)))

  worker_count-parsed :
      (text : String) {P : History → Type 0}
      → Sure w P (λ n k. P k × (atoi text ≡ some n)) (worker_count text)
  unfolding worker_count
  worker_count-parsed text {P} = go (atoi text) refl
    where
      go :
          (o : Option ℤ)
          → atoi text ≡ o
          → Sure w P
              (λ n k. P k × (atoi text ≡ some n))
              (maybe o (fail (error "unable to convert WORKER_COUNT variable")) pure)
      go none e = Sure-fail _
      go (some n) e = Sure-pure n (λ k p. (p, e))

  fact-Sure : {F A : Type 0} (m : Io A) → Sure w (λ k. F) (λ a k. F) m
  fact-Sure {F} {A} m = record { at = λ k f. go (m w k).0 (m w k).1 f }
    where
      go : (r : Result A) (k : History) → F → OnOk (λ (a : A) k. F) (r, k)
      go (ok a) k f = f
      go (err e) k f = tt
      go panic k f = tt

  skip : {A : Type 0} (m : Io A) → Emits all_effects m → Sure w (Since h) (λ a. Since h) m
  skip m e = Sure-Emits h m e

  module _ (flags : Flags) where
    setup-Completed :
        (exec_path version text : String) (n : ℤ)
        → Sure w
            (λ k.
              (Since h k × Configured w h "WORKER_COUNT" default_worker_count text)
              × (atoi text ≡ some n))
            (λ a. Completed w flags h)
            (setup_with_manager (reconciler_of flags exec_path version) n)
    unfolding setup_with_manager
    setup-Completed exec_path version text n =
        Sure-weaken
          (Sure-given (λ k p. (p.0.0, (p.0.1, p.1)))
            (Sure-and (Sure-act h (Call.complete_controller flags.controller_class n)) (
              fact-Sure
                {F = Configured w h "WORKER_COUNT" default_worker_count text × (atoi text ≡ some n)}
                _)))
          (λ a k p. (text, n, p.1.0, p.1.1, p.0))

    Completed-later : (c : Call) (k : History) → Completed w flags h k → Completed w flags h (c ∷ k)
    Completed-later c k (text, n, p, e, d) = (text, n, p, e, later c d)

    still :
        {A : Type 0} (m : Io A)
        → Emits all_effects m
        → Sure w (Completed w flags h) (λ a. Completed w flags h) m
    still m e = Sure-kept m (λ c k x d. Completed-later c k d) e

    make_dir-Emits : (path : String) → Emits all_effects (make_terraform_dir path)
    unfolding make_terraform_dir
    make_dir-Emits path = search emits_rules depth 8

    variable-Emits : (name default : String) → Emits all_effects (env_or name default)
    unfolding env_or
    variable-Emits name default = search emits_rules depth 8

    prepare-Completed : Sure w (Since h) (λ a. Completed w flags h) (prepare flags)
    unfolding prepare
    prepare-Completed = Sure-bind _ _ _ (skip _ (variable-Emits _ _)) λ version.
        Sure-bind _ _ _ (skip _ (variable-Emits _ _)) λ terraform_version.
          Sure-bind _ _ _ (skip _ (Emits-act _ refl)) λ _. Sure-bind _ _ _ (Sure-ask _) λ product.
            Sure-bind _ _ _ (skip _ (make_dir-Emits _)) λ _.
              Sure-bind _ _ _
                (skip _ (
                  Emits-perform
                    (Call.install_terraform terraform_version
                      ("/tmp/" <> (product <> ("_" <> terraform_version))))
                    refl))
                λ exec_path. Sure-bind _ _ _ (env_or-Configured _ _) λ text.
                  Sure-bind _ _ _ (worker_count-parsed text) λ n.
                    Sure-bind _ _ _ (setup-Completed exec_path version text n) λ _.
                      Sure-bind _ _ _ (still _ (Emits-act _ refl)) λ _.
                        Sure-bind _ _ _ (still _ (Emits-act _ refl)) λ _. Sure-pure _ (λ k p. p)

    Completed-Since : (k : History) → Completed w flags h k → Since h k
    Completed-Since k (text, n, p, e, d) = Done-Since d

    start-Done :
        (b : Bool)
        → b ≡ false
        → (n : Io (Unit {0}))
        → Sure w
            (Completed w flags h)
            (λ a k. Completed w flags h k × Done w Call.start_manager h k)
            (choose (not b) (act Call.start_manager) n)
    start-Done true e n = cc
    start-Done false e n =
        Sure-given (λ k p. (p, Completed-Since k p))
          (Sure-and (still (act Call.start_manager) (Emits-act Call.start_manager refl))
            (Sure-act h Call.start_manager))

    main-Sure :
        flags.dry_run ≡ false
        → Sure w
            (Since h)
            (λ a k. Completed w flags h k × Done w Call.start_manager h k)
            (main flags)
    unfolding main
    main-Sure wet =
        Sure-bind _ (prepare flags) _ prepare-Completed λ a. start-Done flags.dry_run wet _

-- Without the flag of a dry run, if the program comes to its end without an error: the controller was completed, with
-- success, for the class of the flags and with as many workers as WORKER_COUNT says, which is a number of 64
-- bits, or 5 if it is not set; and the manager was started and came back with success.
pub main-Completed :
    (flags : Flags)
    → flags.dry_run ≡ false
    → (w : World) (h : History)
    → OnOk (λ a k. Completed w flags h k × Done w Call.start_manager h k) (main flags w h)
main-Completed flags wet w h = (main-Sure w h flags wet).at h same
