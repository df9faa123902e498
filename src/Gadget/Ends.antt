-- ===== src/Gadget/Ends.antt =====
-- How `Setup` of usb_gadget.go ends, from the answers to its calls.
use Prim.Native.String.{String}
use text.Mathlib.Text.{◌==◌}
use tssniff.Prelude.{◌≡◌, refl, ap, true, false, List, [], ◌∷◌, Option, none, some}
use tssniff.Gadget.{
  Call, stat, write_file, read_dir, Fault, not_exist, other, Host, Stage, create_gadget_dir,
  create_gadget_strings, create_config_strings, create_function, create_lun, link_function,
  find_udc_stage, Action, pure, ◌>>=◌, ◌>>◌, call, raise_some, try_call, write, ◌</>◌, gadget_path,
  udc_path, remove_gadget, unless_missing, teardown, first_entry, entries_of, find_udc, setup,
}
use tssniff.Gadget.Went.{
  needed, binds, call_of, all_stages, needed_stage, Ends, After, Runs, Goes, chained, ◌after◌,
}

module _ (h : Host) where
  -- A call whose error is not looked at.
  call-Runs :
      {ns : List Call} (c : Call)
      → needed c ≡ false
      → binds c ≡ false
      → Runs h ns (Goes h ns) (call c)
  call-Runs {ns} c n b = record { run = λ t w. ((λ e. cc, b, w.0), rw n w.1) }

  pure-Runs : {ns : List Call} → Runs h ns (Goes h ns) (pure tt)
  pure-Runs {ns} = record { run = λ t w. w }

  write-Runs :
      {ns : List Call} (path value : String)
      → (path == (gadget_path </> "UDC")) ≡ false
      → Runs h ns (Goes h ns) (write path value)
  unfolding write
  write-Runs {ns} path value b = call-Runs (write_file path value) refl b after pure-Runs

  raise_some-Ends :
      (stage : Stage) (c : Call) (t : List Call) (e : Option Fault)
      → c ≡ call_of stage
      → binds c ≡ false
      → h.answer t c ≡ e
      → {ns : List Call} → After h ns t
      → Ends h (Goes h (c ∷ ns)) (raise_some stage e h (c ∷ t))
  unfolding raise_some
  raise_some-Ends stage c t none same b e w =
      ((λ _. e, b, w.0), rw (ap needed same, needed_stage stage, w.1) refl)
  raise_some-Ends stage c t (some f) same b e w = (same, e, w.0)

  try_call-Runs :
      {ns : List Call} (stage : Stage) (c : Call)
      → c ≡ call_of stage
      → binds c ≡ false
      → Runs h ns (Goes h (c ∷ ns)) (try_call stage c)
  unfolding try_call ◌>>=◌
  try_call-Runs {ns} stage c same b = record {
    run = λ t w. raise_some-Ends stage c t (h.answer t c) same b refl w;
  }

  remove_gadget-Runs : {ns : List Call} → Runs h ns (Goes h ns) remove_gadget
  unfolding remove_gadget
  remove_gadget-Runs {ns} =
      call-Runs _ refl refl
      after call-Runs _ refl refl
      after call-Runs _ refl refl
      after call-Runs _ refl refl
      after call-Runs _ refl refl
      after pure-Runs

  unless_missing-Runs :
      {ns : List Call} (e : Option Fault) (m : Action (Unit {0}))
      → Runs h ns (Goes h ns) m
      → Runs h ns (Goes h ns) (unless_missing e m)
  unfolding unless_missing
  unless_missing-Runs none m r = r
  unless_missing-Runs (some (other n)) m r = r
  unless_missing-Runs (some not_exist) m r = pure-Runs

  teardown-Runs : {ns : List Call} → Runs h ns (Goes h ns) teardown
  unfolding teardown ◌>>=◌
  teardown-Runs {ns} = record {
    run = λ t w.
        (unless_missing-Runs (h.answer t (stat gadget_path)) remove_gadget remove_gadget-Runs).run
          (stat gadget_path ∷ t) ((λ e. cc, refl, w.0), w.1);
  }

  -- The UDC is the first entry of the directory.
  abbrev pub Found : List Call → String → List Call → Type 0
  Found ns udc t = (names : List String) × (h.entries t ≡ udc ∷ names) × After h ns t

  first_entry-Ends :
      (names : List String) (t : List Call)
      → h.entries t ≡ names
      → {ns : List Call} → After h ns t
      → Ends h (Found ns) (first_entry names h t)
  unfolding first_entry
  first_entry-Ends [] t e w = (e, w.0)
  first_entry-Ends (name ∷ names) t e w = (names, e, w)

  entries-Runs : {ns : List Call} → Runs h ns (Found ns) (entries_of >>= first_entry)
  unfolding ◌>>=◌
  entries-Runs {ns} = record { run = λ t w. first_entry-Ends (h.entries t) t refl w }

  find_udc-Runs : {ns : List Call} → Runs h ns (Found (read_dir udc_path ∷ ns)) find_udc
  unfolding find_udc
  find_udc-Runs = try_call-Runs find_udc_stage (read_dir udc_path) refl refl after entries-Runs

  -- The gadget is bound to the UDC, as the last thing.
  abbrev pub Bound : List Call → Unit {0} → List Call → Type 0
  Bound ns u [] = true ≡ false
  Bound ns u (c ∷ t) =
      (udc : String) × (c ≡ write_file (gadget_path </> "UDC") udc) × Found ns udc t

  bind-Ends :
      {ns : List Call} (udc : String) (t : List Call)
      → Found ns udc t
      → Ends h (Bound ns) (write (gadget_path </> "UDC") udc h t)
  unfolding write ◌>>◌ ◌>>=◌
  bind-Ends udc t f = (udc, refl, f)

  setup-Runs : (device : String) → Runs h [] (Bound all_stages) (setup device)
  unfolding setup
  setup-Runs device =
      teardown-Runs
      after try_call-Runs create_gadget_dir _ refl refl
      after write-Runs _ _ refl
      after write-Runs _ _ refl
      after write-Runs _ _ refl
      after write-Runs _ _ refl
      after try_call-Runs create_gadget_strings _ refl refl
      after write-Runs _ _ refl
      after write-Runs _ _ refl
      after write-Runs _ _ refl
      after try_call-Runs create_config_strings _ refl refl
      after write-Runs _ _ refl
      after write-Runs _ _ refl
      after try_call-Runs create_function _ refl refl
      after write-Runs _ _ refl
      after try_call-Runs create_lun _ refl refl
      after write-Runs _ _ refl
      after write-Runs _ _ refl
      after write-Runs _ _ refl
      after write-Runs _ _ refl
      after write-Runs _ _ refl
      after write-Runs _ _ refl
      after try_call-Runs link_function _ refl refl
      after chained h (Found all_stages) (Bound all_stages) find_udc _ find_udc-Runs bind-Ends

  -- Every outcome of `Setup`, whatever the operating system answers. If it returns no error,
  -- its last call is the write of the first entry of /sys/class/udc to the file UDC, and the
  -- seven calls whose error it looks at were all made, in their order, and went well. If it
  -- returns the error of a call, that is the last call made, it failed with that error, and
  -- each such call before it went well; if it finds no UDC, the directory has no entry. With an
  -- error nothing was written to UDC.
  pub setup-Ends : (device : String) → Ends h (Bound all_stages) (setup device h [])
  setup-Ends device = (setup-Runs device).run [] (tt, refl)
