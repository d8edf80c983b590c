-- ===== src/Tests/Modules.antt =====
-- The loading of kernel modules at a concrete system.
use kube_overlay_operator.Base.{String, ◌≡◌, refl, none, some, ◌==◌, if◌then◌else◌}
use kube_overlay_operator.Base.Strings.{string_dec}
use kube_overlay_operator.Base.Result.{ok}
use kube_overlay_operator.KernelModules.{
  other_system_error, System, load_compressed, init_module, mod_init_func,
}
use kube_overlay_operator.KernelModules.Loading.{NoError, mod_init_func-NoError}

-- Files are their paths. The kernel refuses the module "fou.ko" as a file and takes all bytes.
abbrev machine : System
machine = record {
  File = String;
  Reader = String;
  Bytes = String;
  open_file = λ path. ok path;
  extension = λ path. if path == "ipip.ko.gz" then ".gz" else ".ko";
  new_reader = λ format f. ok f;
  file_reader = λ f. f;
  read_all = λ rd. ok rd;
  finit_module_call = λ f params. some (other_system_error "bad signature");
  init_module_call = λ buf params. none;
}

gz-loaded : mod_init_func machine "ipip.ko.gz" "" ≡ none
unfolding mod_init_func load_compressed init_module string_dec
gz-loaded = refl

mod_init_func-NoError_example :
    (f : String) × (machine.open_file "ipip.ko.gz" ≡ ok f) × NoError machine "ipip.ko.gz" f ""
mod_init_func-NoError_example = mod_init_func-NoError machine "ipip.ko.gz" "" gz-loaded
