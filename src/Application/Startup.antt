-- ===== src/Application/Startup.antt =====
-- src/mprpcapplication.cc: how Init ends.
use mprpc_advanced_z.Base.{
  ℕ, ◌<◌, ◌≡◌, ◌⊎◌, refl, List, [], Option, none, some, Bool, true, false, ltb, ltb→lt, Bool-cases,
  Option-cases, inl, inr,
}
use mprpc_advanced_z.Base.Bytes.{Bytes, codes}
use mprpc_advanced_z.Base.Maps.{Map}
use mprpc_advanced_z.Config.{File, loaded, load_loop, load_config_file}
use mprpc_advanced_z.Config.Loading.{
  load_config_file-loads, load_config_file-hangs, load_loop-hangs,
}
use mprpc_advanced_z.Log.{Tm}
use mprpc_advanced_z.Log
use mprpc_advanced_z.Application.{Opt, read_options, exits, hangs, started, init}

-- What Init refuses: too few arguments, an option that getopt does not know, or a file that does not open.
abbrev pub Refused : ℕ → List Opt → (Bytes → Option File) → Type 0
Refused argc opts disk =
    (argc < 2)
    ⊎ ((read_options opts [] ≡ none)
        ⊎ ((file : Bytes) × (read_options opts [] ≡ some file) × (disk file ≡ none)))

-- Init ends in one of three ways. It exits if there are too few arguments, an unknown option or no file that
-- opens. It does not end if the file opens and a read of it fails, as of a directory: no number of
-- rounds ends the loop over its lines. And else it ends with the map of that file, added to the one
-- before, and with the log.
pub init-ends :
    (argc : ℕ) (opts : List Opt) (disk : Bytes → Option File) (fopen : Bytes → Bool) (tm : Tm)
    (m_config : Map Bytes Bytes)
    → ((init argc opts disk fopen tm m_config ≡ exits) × Refused argc opts disk)
      ⊎ ((name : Bytes) × (file : File) × (read_options opts [] ≡ some name)
          × (disk name ≡ some file)
          × (((file.error ≡ true)
                × ((fuel : ℕ) → load_loop file.error fuel file.bytes m_config ≡ none)
                × (init argc opts disk fopen tm m_config ≡ hangs))
              ⊎ ((m : Map Bytes Bytes) × (file.error ≡ false)
                  × (load_config_file (some file) m_config ≡ loaded m)
                  × (init argc opts disk fopen tm m_config
                      ≡ started m
                          (Log.init fopen tm (codes "./log/RpcServerLog") 0 2000 800000 800).1))))
unfolding init load_config_file
init-ends argc opts disk fopen tm m_config = elim (Bool-cases (ltb argc 2)) [
  | inl b ↦ inl (rw b refl, inl (ltb→lt _ _ b))
  | inr b ↦ elim (Option-cases (read_options opts [])) [
    | inl e ↦ inl (rw (b, e) refl, inr (inl e))
    | inr (name, e) ↦ elim (Option-cases (disk name)) [
      | inl d ↦ inl (rw (b, e, d) refl, inr (inr (name, e, d)))
      | inr (file, d) ↦ elim (Bool-cases file.error) [
        | inl bad ↦
            let l = load_config_file-hangs file m_config bad in
            inr (
              name,
              file,
              e,
              d,
              inl (
                bad,
                λ fuel. rw bad (load_loop-hangs fuel file.bytes m_config),
                rw (b, e, d, l) refl,
              ),
            )
        | inr good ↦
            let (m, l) = load_config_file-loads file m_config good in
            inr (name, file, e, d, inr (m, good, l, rw (b, e, d, l) refl))
      ]
    ]
  ]
]
