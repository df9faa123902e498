-- ===== src/Gadget.antt =====
-- usb_gadget.go: the calls that set the USB gadget up and take it down. What the operating system
-- answers to a call may depend on all the calls before it. The log is left out.
pub mod Went
pub mod Ends
pub mod Blind
mod Tests
use Prim.Native.String.{String, ◌++◌ as ◌<>◌}
use tssniff.Prelude.{ℕ, List, [], ◌∷◌, Option, none, some}

-- A call of package os, with the paths and the text that it is given.
pub data Call : Type 0 where
  stat : String → Call
  mkdir_all : String → Call
  write_file : String → String → Call
  symlink : String → String → Call
  read_dir : String → Call
  remove : String → Call
  remove_all : String → Call

-- The errors that the code tells apart.
pub data Fault : Type 0 where
  not_exist : Fault
  other : ℕ → Fault

-- What the operating system answers; the calls so far come newest first.
pub record Host : Type 0 where
  pub answer : List Call → Call → Option Fault
  pub entries : List Call → List String

-- Where `Setup` stops.
pub data Stage : Type 0 where
  create_gadget_dir create_gadget_strings create_config_strings : Stage
  create_function create_lun link_function find_udc_stage : Stage

pub data SetupError : Type 0 where
  stopped : Stage → Fault → SetupError
  no_udc_found : SetupError

pub data Result (A : Type 0) : Type 0 where
  ok : A → Result A
  err : SetupError → Result A

-- An action sees the calls so far and adds its own, also if it fails.
abbrev pub Action : Type 0 → Type 0
Action A = Host → List Call → Result A × List Call

module _ {A : Type 0} where
  abbrev pub pure : A → Action A
  pure a h t = (ok a, t)

  abbrev pub raise : SetupError → Action A
  raise e h t = (err e, t)

infixl 5 ◌>>=◌ ◌>>◌
pub ◌>>=◌ : {A B : Type 0} → Action A → (A → Action B) → Action B
◌>>=◌ m f h t = let (r, t') = m h t in elim r [ ok a ↦ f a h t' | err e ↦ (err e, t') ]

pub ◌>>◌ : {A B : Type 0} → Action A → Action B → Action B
unfolding ◌>>=◌
m >> k = m >>= λ _. k

abbrev pub call : Call → Action (Option Fault)
call c h t = (ok (h.answer t c), c ∷ t)

-- `if err != nil { return fmt.Errorf(...) }`
pub raise_some : Stage → Option Fault → Action (Unit {0})
raise_some stage none = pure tt
raise_some stage (some f) = raise (stopped stage f)

pub try_call : Stage → Call → Action (Unit {0})
try_call stage c = do e ← call c; raise_some stage e

-- `writeFile`, which drops the error.
pub write : String → String → Action (Unit {0})
write path value = do call (write_file path value); pure tt

infixl 20 ◌</>◌
abbrev pub ◌</>◌ : String → String → String
a </> b = a <> ("/" <> b)

-- `gadgetPath` and `udcPath`
abbrev pub gadget_path : String
gadget_path = "/sys/kernel/config/usb_gadget/tsdisk"

abbrev pub udc_path : String
udc_path = "/sys/class/udc"

-- The calls of `Teardown` behind its test.
remove_gadget : Action (Unit {0})
remove_gadget = do
  call (remove (gadget_path </> "configs/c.1/mass_storage.0"))
  call (remove_all (gadget_path </> "functions/mass_storage.0"))
  call (remove_all (gadget_path </> "configs/c.1"))
  call (remove_all (gadget_path </> "strings/0x409"))
  call (remove_all gadget_path)
  pure tt

-- `os.IsNotExist(err)`
unless_missing : Option Fault → Action (Unit {0}) → Action (Unit {0})
unless_missing none m = m
unless_missing (some (other n)) m = m
unless_missing (some not_exist) m = pure tt

-- `Teardown`
pub teardown : Action (Unit {0})
teardown = do e ← call (stat gadget_path); unless_missing e remove_gadget

-- The loop of `findUDC`, which returns in its first round.
pub first_entry : List String → Action String
first_entry [] = raise no_udc_found
first_entry (name ∷ names) = pure name

abbrev entries_of : Action (List String)
entries_of h t = (ok (h.entries t), t)

-- `findUDC`
pub find_udc : Action String
find_udc = do try_call find_udc_stage (read_dir udc_path); names ← entries_of; first_entry names

-- `Setup`, with `g.backingDev`
pub setup : String → Action (Unit {0})
setup backing_dev = do
  let strings_dir = gadget_path </> "strings/0x409"
  let cfg_dir = gadget_path </> "configs/c.1"
  let cfg_strings = cfg_dir </> "strings/0x409"
  let func_dir = gadget_path </> "functions/mass_storage.0"
  let lun_dir = func_dir </> "lun.0"
  teardown
  try_call create_gadget_dir (mkdir_all gadget_path)
  write (gadget_path </> "idVendor") "0x1d6b"
  write (gadget_path </> "idProduct") "0x0104"
  write (gadget_path </> "bcdDevice") "0x0100"
  write (gadget_path </> "bcdUSB") "0x0200"
  try_call create_gadget_strings (mkdir_all strings_dir)
  write (strings_dir </> "serialnumber") "9911010101"
  write (strings_dir </> "manufacturer") "yonleLABORATORY"
  write (strings_dir </> "product") "TSSniff"
  try_call create_config_strings (mkdir_all cfg_strings)
  write (cfg_strings </> "configuration") "Mass Storage"
  write (cfg_dir </> "MaxPower") "250"
  try_call create_function (mkdir_all func_dir)
  write (func_dir </> "stall") "0"
  try_call create_lun (mkdir_all lun_dir)
  write (lun_dir </> "nofua") "0"
  write (lun_dir </> "cdrom") "0"
  write (lun_dir </> "ro") "0"
  write (lun_dir </> "removable") "1"
  write (lun_dir </> "file") backing_dev
  write (lun_dir </> "inquiry_string") "TSSniff Disk"
  try_call link_function (symlink func_dir (cfg_dir </> "mass_storage.0"))
  udc ← find_udc
  write (gadget_path </> "UDC") udc
