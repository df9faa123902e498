-- ===== src/Gadget/Went.antt =====
-- The calls of usb_gadget.go so far: which were needed, which bound the gadget, and how an action
-- goes on from them.
use text.Mathlib.Text.{◌==◌}
use tssniff.Prelude.{◌≡◌, refl, if◌then◌else◌, Bool, true, false, List, [], ◌∷◌, none, some}
use tssniff.Gadget.{
  Call, stat, mkdir_all, write_file, symlink, read_dir, remove, remove_all, Host, Stage,
  create_gadget_dir, create_gadget_strings, create_config_strings, create_function, create_lun,
  link_function, find_udc_stage, SetupError, stopped, no_udc_found, Result, ok, err, Action, ◌>>=◌,
  ◌>>◌, ◌</>◌, gadget_path,
}

-- The calls that `Setup` does not go on without.
abbrev pub needed : Call → Bool
needed (stat path) = false
needed (mkdir_all path) = true
needed (write_file path value) = false
needed (symlink target path) = true
needed (read_dir path) = true
needed (remove path) = false
needed (remove_all path) = false

-- Whether a call binds the gadget.
abbrev pub binds : Call → Bool
binds (stat path) = false
binds (mkdir_all path) = false
binds (write_file path value) = path == (gadget_path </> "UDC")
binds (symlink target path) = false
binds (read_dir path) = false
binds (remove path) = false
binds (remove_all path) = false

-- Every needed call went well, and none bound the gadget.
abbrev pub Went : Host → List Call → Type 0
Went h [] = Unit {0}
Went h (c ∷ t) = (needed c ≡ true → h.answer t c ≡ none) × (binds c ≡ false) × Went h t

-- The needed calls among them.
abbrev pub needed_of : List Call → List Call
needed_of [] = []
needed_of (c ∷ t) = if needed c then c ∷ needed_of t else needed_of t

-- The call that an error of a stage comes from.
abbrev pub call_of : Stage → Call
call_of create_gadget_dir = mkdir_all "/sys/kernel/config/usb_gadget/tsdisk"
call_of create_gadget_strings = mkdir_all "/sys/kernel/config/usb_gadget/tsdisk/strings/0x409"
call_of create_config_strings =
    mkdir_all "/sys/kernel/config/usb_gadget/tsdisk/configs/c.1/strings/0x409"
call_of create_function = mkdir_all "/sys/kernel/config/usb_gadget/tsdisk/functions/mass_storage.0"
call_of create_lun = mkdir_all "/sys/kernel/config/usb_gadget/tsdisk/functions/mass_storage.0/lun.0"
call_of link_function =
    symlink "/sys/kernel/config/usb_gadget/tsdisk/functions/mass_storage.0"
      "/sys/kernel/config/usb_gadget/tsdisk/configs/c.1/mass_storage.0"
call_of find_udc_stage = read_dir "/sys/class/udc"

-- The needed calls of a whole `Setup`, newest first.
abbrev pub all_stages : List Call
all_stages =
    call_of find_udc_stage
    ∷ call_of link_function
    ∷ call_of create_lun
    ∷ call_of create_function
    ∷ call_of create_config_strings
    ∷ call_of create_gadget_strings
    ∷ call_of create_gadget_dir
    ∷ []

pub needed_stage : (stage : Stage) → needed (call_of stage) ≡ true
needed_stage create_gadget_dir = refl
needed_stage create_gadget_strings = refl
needed_stage create_config_strings = refl
needed_stage create_function = refl
needed_stage create_lun = refl
needed_stage link_function = refl
needed_stage find_udc_stage = refl

-- An error is that of the last call, and all went well before it.
abbrev pub Fails : Host → SetupError → List Call → Type 0
Fails h (stopped stage f) [] = true ≡ false
Fails h (stopped stage f) (c ∷ t) = (c ≡ call_of stage) × (h.answer t c ≡ some f) × Went h t
Fails h no_udc_found t = (h.entries t ≡ []) × Went h t

-- An action ends with `P` of its value, or with an error.
abbrev pub Ends : {A : Type 0} → Host → (A → List Call → Type 0) → Result A × List Call → Type 0
Ends h P (ok a, t) = P a t
Ends h P (err e, t) = Fails h e t

-- The calls so far went well, and `ns` are the needed ones.
abbrev pub After : Host → List Call → List Call → Type 0
After h ns t = Went h t × (needed_of t ≡ ns)

-- Behind the needed calls `ns` the action ends with `P`.
pub record Runs {A : Type 0} (h : Host) (ns : List Call) (P : A → List Call → Type 0) (m : Action A)
    : Type 0 where
  pub run : (t : List Call) → After h ns t → Ends h P (m h t)

abbrev pub Goes : {A : Type 0} → Host → List Call → A → List Call → Type 0
Goes h ns a t = After h ns t

module _ {A B : Type 0} (h : Host) (P : A → List Call → Type 0) (Q : B → List Call → Type 0) where
  chained_end :
      (f : A → Action B) (r : Result A × List Call)
      → Ends h P r
      → ((a : A) (t : List Call) → P a t → Ends h Q (f a h t))
      → Ends h Q (elim r.0 [ ok a ↦ f a h r.1 | err e ↦ (err e, r.1) ])
  chained_end f (ok a, t) e k = k a t e
  chained_end f (err x, t) e k = e

  pub chained :
      {ns : List Call} (m : Action A) (f : A → Action B)
      → Runs h ns P m
      → ((a : A) (t : List Call) → P a t → Ends h Q (f a h t))
      → Runs h ns Q (m >>= f)
  unfolding ◌>>=◌
  chained {ns} m f p k = record { run = λ t w. chained_end f (m h t) (p.run t w) k }

module _ {h : Host} where
  infixr 4 ◌after◌
  pub ◌after◌ :
      {ns ns' : List Call} {A B : Type 0} {m : Action A} {k : Action B} {P : B → List Call → Type 0}
      → Runs h ns (Goes h ns') m
      → Runs h ns' P k
      → Runs h ns P (m >> k)
  unfolding ◌>>◌
  ◌after◌ {ns} {ns'} {m} {k} {P} p q = chained h (Goes h ns') P m (λ _. k) p (λ a t w. q.run t w)
