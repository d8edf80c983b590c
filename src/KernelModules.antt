-- ===== src/KernelModules.antt =====
-- modInitFunc, finitModule and initModule, which cmd/dns/main.go and cmd/sidecar/main.go both
-- declare.
pub mod Loading
use kube_overlay_operator.Base.{String, Bool, true, false, Option, none, some, ◌==◌, if◌then◌else◌}
use kube_overlay_operator.Base.Result.{Result, ok, err, ◌>>=◌}

-- An error of the system: ENOSYS, which the code tells apart, or another.
pub data SystemError : Type 0 where
  enosys : SystemError
  other_system_error : String → SystemError

-- The formats of compression that the code reads.
pub data Compression : Type 0 where
  gzip xz zstd : Compression

-- The packages os, io, filepath and unix and the decompressors: an open file, a reader of bytes,
-- and what the calls on them return. The kernel's calls return none where they succeed.
pub record System : Type 1 where
  pub File : Type 0
  pub Reader : Type 0
  pub Bytes : Type 0
  pub open_file : String → Result SystemError File
  pub extension : String → String
  pub new_reader : Compression → File → Result SystemError Reader
  pub file_reader : File → Reader
  pub read_all : Reader → Result SystemError Bytes
  pub finit_module_call : File → String → Option SystemError
  pub init_module_call : Bytes → String → Option SystemError

-- The cases of the switch on the extension; none where no case applies.
abbrev pub compression_of : String → Option Compression
compression_of ext =
    if ext == ".gz"
    then some gzip
    else if ext == ".xz"
    then some xz
    else if ext == ".zst"
    then some zstd
    else none

module _ (sys : System) where
  unfoldable pub finit_module : sys.File → String → Option SystemError
  finit_module f params = sys.finit_module_call f params

  unfoldable pub init_module : sys.Reader → String → Option SystemError
  init_module rd params = elim (sys.read_all rd) [
    | err e ↦ some e
    | ok buf ↦ sys.init_module_call buf params
  ]

  -- A case of the switch.
  unfoldable pub load_compressed : Compression → sys.File → String → Option SystemError
  load_compressed format f params = elim (sys.new_reader format f) [
    | err e ↦ some e
    | ok rd ↦ init_module rd params
  ]

  -- What follows the switch.
  unfoldable pub load_plain : sys.File → String → Option SystemError
  load_plain f params = elim (finit_module f params) [
    | some enosys ↦ init_module (sys.file_reader f) params
    | _ ↦ none
  ]

  unfoldable pub mod_init_func : String → String → Option SystemError
  mod_init_func path params = elim (sys.open_file path) [
    | err e ↦ some e
    | ok f ↦ elim (compression_of (sys.extension path)) [
      | some format ↦ load_compressed format f params
      | none ↦ load_plain f params
    ]
  ]
