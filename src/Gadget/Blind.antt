-- ===== src/Gadget/Blind.antt =====
-- `writeFile` of usb_gadget.go drops its error.
use Prim.Native.String.{String}
use tssniff.Prelude.{◌≡◌, refl, ◌∙◌, ap, Bool, true, false, List, [], ◌∷◌, Option, none, some}
use tssniff.Gadget.{
  Call, stat, mkdir_all, write_file, symlink, read_dir, remove, remove_all, Fault, not_exist, other,
  Host, Stage, Result, ok, err, Action, ◌>>=◌, ◌>>◌, call, raise_some, try_call, write,
  remove_gadget, unless_missing, teardown, first_entry, entries_of, find_udc, setup,
}

abbrev pub is_write : Call → Bool
is_write (stat path) = false
is_write (mkdir_all path) = false
is_write (write_file path value) = true
is_write (symlink target path) = false
is_write (read_dir path) = false
is_write (remove path) = false
is_write (remove_all path) = false

-- Two hosts that differ in their answers to writes only.
abbrev pub AlikeHosts : Host → Host → Type 0
AlikeHosts h h' =
    ((t : List Call) (c : Call) → is_write c ≡ false → h.answer t c ≡ h'.answer t c)
    × ((t : List Call) → h.entries t ≡ h'.entries t)

-- What a bind does with the result of its first action.
abbrev onwards :
    {A B : Type 0} → (A → Action B) → Host → Result A × List Call → Result B × List Call
onwards f h r = elim r.0 [ ok a ↦ f a h r.1 | err e ↦ (err e, r.1) ]

module _ (h h' : Host) (alike : AlikeHosts h h') where
  record Alike {A : Type 0} (m : Action A) : Type 0 where
    same : (t : List Call) → m h t ≡ m h' t

  onwards_same :
      {A B : Type 0} (f : A → Action B) (r : Result A × List Call)
      → ((a : A) → Alike (f a))
      → onwards f h r ≡ onwards f h' r
  onwards_same f (ok a, t) q = (q a).same t
  onwards_same f (err e, t) q = refl

  bind-Alike :
      {A B : Type 0} (m : Action A) (f : A → Action B)
      → Alike m
      → ((a : A) → Alike (f a))
      → Alike (m >>= f)
  unfolding ◌>>=◌
  bind-Alike m f p q = record {
    same = λ t. ap (onwards f h) (p.same t) ∙ onwards_same f (m h' t) q;
  }

  infixr 4 ◌then◌
  ◌then◌ : {A B : Type 0} {m : Action A} {k : Action B} → Alike m → Alike k → Alike (m >> k)
  unfolding ◌>>◌
  ◌then◌ {m} {k} p q = bind-Alike m (λ _. k) p (λ _. q)

  call-Alike : (c : Call) → is_write c ≡ false → Alike (call c)
  call-Alike c e = record { same = λ t. rw (alike.0 t c e) refl }

  write-Alike : (path value : String) → Alike (write path value)
  unfolding write ◌>>◌ ◌>>=◌
  write-Alike path value = record { same = λ t. refl }

  raise_some-Alike : (stage : Stage) (e : Option Fault) → Alike (raise_some stage e)
  unfolding raise_some
  raise_some-Alike stage none = record { same = λ t. refl }
  raise_some-Alike stage (some f) = record { same = λ t. refl }

  try_call-Alike : (stage : Stage) (c : Call) → is_write c ≡ false → Alike (try_call stage c)
  unfolding try_call
  try_call-Alike stage c e = bind-Alike (call c) _ (call-Alike c e) (raise_some-Alike stage)

  unless_missing-Alike :
      (e : Option Fault) (m : Action (Unit {0})) → Alike m → Alike (unless_missing e m)
  unfolding unless_missing
  unless_missing-Alike none m r = r
  unless_missing-Alike (some (other n)) m r = r
  unless_missing-Alike (some not_exist) m r = record { same = λ t. refl }

  remove_gadget-Alike : Alike remove_gadget
  unfolding remove_gadget
  remove_gadget-Alike =
      call-Alike _ refl
      then call-Alike _ refl
      then call-Alike _ refl
      then call-Alike _ refl
      then call-Alike _ refl
      then record { same = λ t. refl }

  teardown-Alike : Alike teardown
  unfolding teardown
  teardown-Alike =
      bind-Alike _ _ (call-Alike _ refl)
        (λ e. unless_missing-Alike e remove_gadget remove_gadget-Alike)

  first_entry-Alike : (names : List String) → Alike (first_entry names)
  unfolding first_entry
  first_entry-Alike [] = record { same = λ t. refl }
  first_entry-Alike (name ∷ names) = record { same = λ t. refl }

  entries-Alike : Alike entries_of
  entries-Alike = record { same = λ t. rw (alike.1 t) refl }

  find_udc-Alike : Alike find_udc
  unfolding find_udc
  find_udc-Alike = try_call-Alike _ _ refl then bind-Alike _ _ entries-Alike first_entry-Alike

  setup-Alike : (device : String) → Alike (setup device)
  unfolding setup
  setup-Alike device =
      teardown-Alike
      then try_call-Alike _ _ refl
      then write-Alike _ _
      then write-Alike _ _
      then write-Alike _ _
      then write-Alike _ _
      then try_call-Alike _ _ refl
      then write-Alike _ _
      then write-Alike _ _
      then write-Alike _ _
      then try_call-Alike _ _ refl
      then write-Alike _ _
      then write-Alike _ _
      then try_call-Alike _ _ refl
      then write-Alike _ _
      then try_call-Alike _ _ refl
      then write-Alike _ _
      then write-Alike _ _
      then write-Alike _ _
      then write-Alike _ _
      then write-Alike _ _
      then write-Alike _ _
      then try_call-Alike _ _ refl
      then bind-Alike _ _ find_udc-Alike (λ udc. write-Alike _ udc)

  -- For two systems that differ only in their answers to writes of files, `Setup` makes the
  -- same calls and returns the same, so that no failed write is reported.
  pub setup-alike : (device : String) (t : List Call) → setup device h t ≡ setup device h' t
  setup-alike device t = (setup-Alike device).same t
