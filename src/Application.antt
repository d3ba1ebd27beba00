-- ===== src/Application.antt =====
-- src/include/mprpcapplication.h and src/mprpcapplication.cc: the command line. What getopt returns,
-- the files that open, and the log are parameters.
pub mod Startup
use mprpc_advanced_z.Base.{ℕ, List, [], ◌∷◌, Option, none, some, Bool, ltb, if◌then◌else◌}
use mprpc_advanced_z.Base.Bytes.{Bytes, codes}
use mprpc_advanced_z.Base.Maps.{Map}
use mprpc_advanced_z.Config.{File, exited, stuck, loaded, load_config_file}
use mprpc_advanced_z.Log.{Tm, Log}
use mprpc_advanced_z.Log

-- What getopt returns for "i:" before -1: the option with its argument, or an error.
pub data Opt : Type 0 where
  given : Bytes → Opt
  unknown : Opt

-- The loop over getopt: the last file that is named, or `none` after the help text.
unfoldable pub read_options : List Opt → Bytes → Option Bytes
read_options [] config_file = some config_file
read_options (given optarg ∷ os) config_file = read_options os optarg
read_options (unknown ∷ os) config_file = none

-- How Init ends: by exit, in a loop that does not end, or with the configuration and the log.
pub data Started : Type 0 where
  exits : Started
  hangs : Started
  started : Map Bytes Bytes → Log → Started

-- Init(argc, argv); `disk` gives the files that open for reading, `fopen` those for the log.
unfoldable pub init :
    ℕ → List Opt → (Bytes → Option File) → (Bytes → Bool) → Tm → Map Bytes Bytes → Started
unfolding read_options load_config_file Log.init
init argc opts disk fopen tm m_config =
    let run : Started = elim (read_options opts []) [
      | none ↦ exits
      | some config_file ↦ elim (load_config_file (disk config_file) m_config) [
        | exited ↦ exits
        | stuck ↦ hangs
        | loaded m ↦
            let log = Log.init fopen tm (codes "./log/RpcServerLog") 0 2000 800000 800 in
            started m log.1
      ]
    ] in
    if ltb argc 2 then exits else run
