-- ===== src/KernelModules/Loading.antt =====
-- What it means that modInitFunc returns no error.
use kube_overlay_operator.Base.{String, ◌≡◌, inl, inr, none, some, arith, Option-cases}
use kube_overlay_operator.Base.Result.{ok, Result-cases}
use kube_overlay_operator.KernelModules.{
  enosys, other_system_error, Compression, System, compression_of, finit_module, init_module,
  load_compressed, load_plain, mod_init_func,
}

module _ (sys : System) where
  -- The kernel took the bytes of a reader as a module.
  pub record TookBytes (rd : sys.Reader) (params : String) : Type 0 where
    pub buf : sys.Bytes
    pub whole : sys.read_all rd ≡ ok buf
    pub accepted : sys.init_module_call buf params ≡ none

  -- The ways in which no error comes back for an open file. In `overlooked` the kernel has refused
  -- the module.
  pub data NoError (path : String) (f : sys.File) (params : String) : Type 0 where
    decompressed :
        (format : Compression) (rd : sys.Reader)
        → compression_of (sys.extension path) ≡ some format
        → sys.new_reader format f ≡ ok rd
        → TookBytes rd params
        → NoError path f params
    took_file :
        compression_of (sys.extension path) ≡ none
        → sys.finit_module_call f params ≡ none
        → NoError path f params
    took_read :
        compression_of (sys.extension path) ≡ none
        → sys.finit_module_call f params ≡ some enosys
        → TookBytes (sys.file_reader f) params
        → NoError path f params
    overlooked :
        (message : String)
        → compression_of (sys.extension path) ≡ none
        → sys.finit_module_call f params ≡ some (other_system_error message)
        → NoError path f params

  init_module-TookBytes :
      (rd : sys.Reader) (params : String) → init_module sys rd params ≡ none → TookBytes rd params
  unfolding init_module
  init_module-TookBytes rd params h = elim (Result-cases (sys.read_all rd)) [
    | inr (e, broken) ↦ absurd (ground (arith, broken))
    | inl (buf, whole) ↦ record {
      buf = buf;
      whole = whole;
      accepted = rw (whole, init_module) at h;
    }
  ]

  load_plain-NoError :
      (path : String) (f : sys.File) (params : String)
      → compression_of (sys.extension path) ≡ none
      → load_plain sys f params ≡ none
      → NoError path f params
  unfolding load_plain finit_module
  load_plain-NoError path f params plain h = elim (Option-cases (sys.finit_module_call f params)) [
    | inl taken ↦ took_file plain taken
    | inr (enosys, missing) ↦ took_read plain missing (
        init_module-TookBytes (sys.file_reader f) params
          (rw (missing, load_plain, finit_module) at h))
    | inr (other_system_error message, refused) ↦ overlooked message plain refused
  ]

  load_compressed-NoError :
      (path : String) (f : sys.File) (params : String) (format : Compression)
      → compression_of (sys.extension path) ≡ some format
      → load_compressed sys format f params ≡ none
      → NoError path f params
  unfolding load_compressed
  load_compressed-NoError path f params format known h =
      elim (Result-cases (sys.new_reader format f)) [
        | inr (e, broken) ↦ absurd (ground (arith, broken))
        | inl (rd, made) ↦
            decompressed format rd known made
              (init_module-TookBytes rd params (rw (made, load_compressed) at h))
      ]

  -- If modInitFunc returns no error, it has opened the file, and the kernel has taken the module:
  -- from the decompressed bytes, from the file, or, where it cannot load files, from the bytes of
  -- the file. The one exception is that the kernel refused an uncompressed file with an error other
  -- than ENOSYS.
  pub mod_init_func-NoError :
      (path params : String)
      → mod_init_func sys path params ≡ none
      → (f : sys.File) × (sys.open_file path ≡ ok f) × NoError path f params
  unfolding mod_init_func
  mod_init_func-NoError path params h = elim (Result-cases (sys.open_file path)) [
    | inr (e, absent) ↦ absurd (ground (arith, absent))
    | inl (f, opened) ↦ elim (Option-cases (compression_of (sys.extension path))) [
      | inl plain ↦ (
        f,
        opened,
        load_plain-NoError path f params plain (rw (opened, plain, mod_init_func) at h),
      )
      | inr (format, known) ↦ (
        f,
        opened,
        load_compressed-NoError path f params format known (rw (opened, known, mod_init_func) at h),
      )
    ]
  ]

  -- An error of the kernel other than ENOSYS at an uncompressed file is not returned.
  pub mod_init_func-overlooked :
      (path params message : String) (f : sys.File)
      → sys.open_file path ≡ ok f
      → compression_of (sys.extension path) ≡ none
      → sys.finit_module_call f params ≡ some (other_system_error message)
      → mod_init_func sys path params ≡ none
  unfolding mod_init_func load_plain finit_module
  mod_init_func-overlooked path params message f opened plain refused = ground arith
