-- ===== src/Gadget/Tests.antt =====
-- The calls of usb_gadget.go on a host that allows everything, and on others.
use tssniff.Prelude.{◌≡◌, refl, false, [], ◌∷◌, Option, none, some}
use tssniff.Gadget.{
  Call, stat, mkdir_all, write_file, symlink, read_dir, remove, remove_all, Fault, not_exist, other,
  Host, setup,
}
use tssniff.Gadget.Went.{Ends, all_stages}
use tssniff.Gadget.Ends.{Bound, setup-Ends}
use tssniff.Gadget.Blind.{AlikeHosts, is_write, setup-alike}

abbrev willing : Host
willing = record { answer = λ t c. none; entries = λ t. "20980000.usb" ∷ [] }

abbrev no_links : Call → Option Fault
no_links (stat path) = some not_exist
no_links (mkdir_all path) = none
no_links (write_file path value) = none
no_links (symlink target path) = some (other 17)
no_links (read_dir path) = none
no_links (remove path) = none
no_links (remove_all path) = none

abbrev linkless : Host
linkless = record { answer = λ t. no_links; entries = λ t. [] }

setup-Ends_example :
    Ends linkless (Bound linkless all_stages) (setup "/mnt/tsdisk/disk.img" linkless [])
setup-Ends_example = setup-Ends linkless "/mnt/tsdisk/disk.img"

-- A device that is busy refuses the write of its file.
abbrev busy : Call → Option Fault
busy (stat path) = none
busy (mkdir_all path) = none
busy (write_file path value) = some (other 16)
busy (symlink target path) = none
busy (read_dir path) = none
busy (remove path) = none
busy (remove_all path) = none

abbrev reluctant : Host
reluctant = record { answer = λ t. busy; entries = λ t. "20980000.usb" ∷ [] }

busy_write_only : (c : Call) → is_write c ≡ false → busy c ≡ none
busy_write_only (stat path) e = refl
busy_write_only (mkdir_all path) e = refl
busy_write_only (write_file path value) e = cc
busy_write_only (symlink target path) e = refl
busy_write_only (read_dir path) e = refl
busy_write_only (remove path) e = refl
busy_write_only (remove_all path) e = refl

reluctant-AlikeHosts : AlikeHosts reluctant willing
reluctant-AlikeHosts = (λ t c e. busy_write_only c e, λ t. refl)

setup-alike_example :
    setup "/mnt/tsdisk/disk.img" reluctant [] ≡ setup "/mnt/tsdisk/disk.img" willing []
setup-alike_example = setup-alike reluctant willing reluctant-AlikeHosts "/mnt/tsdisk/disk.img" []
