-- ===== src/Tests/Files.antt =====
-- Runs of src/mprpcconfig.cc and src/mprpcapplication.cc.
use mprpc_advanced_z.Base.{ℕ, none, false, ◌≡◌, ◌⊎◌, Option, List, true, [], ◌∷◌, ◌++◌, some, arith}
use mprpc_advanced_z.Base.Bytes.{Bytes, codes}
use mprpc_advanced_z.Base.Maps.{Map}
use mprpc_advanced_z.Log.{Tm}
use mprpc_advanced_z.Log
use mprpc_advanced_z.Application.{Opt, given, exits, hangs, started, read_options, init}
use mprpc_advanced_z.Application.Startup.{Refused, init-ends}
use mprpc_advanced_z.Config.{File, parse_line, fgets, load_loop, loaded, load_config_file}
use mprpc_advanced_z.Config.Reads.{entry_text, parse_line-reads}

parse_line-reads_example :
    let line =
      fgets false 511 (entry_text 1 1 1 1 (codes "ip") (codes "a") ++ 10 ∷ codes "port=1") in
    (parse_line line.buf ≡ some (codes "ip", codes "a"))
    × (line.rest ≡ codes "port=1")
    × (line.feof ≡ false)
parse_line-reads_example =
    parse_line-reads false 1 1 1 1 (codes "ip") (codes "a") (codes "port=1") (omega arith)
      (ground arith, ground arith, (λ e. cc)) (ground arith, ground arith, (λ e. cc)) (ground arith)
      (ground arith, (ground arith, tt)) (ground arith, (ground arith, tt)) (ground arith, tt)
      (ground arith, (ground arith, tt)) (ground arith, tt)

abbrev options : List Opt
options = given (codes "a.conf") ∷ []

abbrev conf : File
conf = record { bytes = codes "ip=a"; error = false }

abbrev files : Bytes → Option File
files _ = some conf

abbrev today : Tm
today = record {
  tm_year = 126;
  tm_mon = 0;
  tm_mday = 2;
  tm_hour = 9;
  tm_min = 30;
  tm_sec = 5;
  tv_usec = 7;
}

init-ends_example :
    ((init 3 options files (λ _. true) today [] ≡ exits) × Refused 3 options files)
    ⊎ ((name : Bytes) × (file : File) × (read_options options [] ≡ some name)
        × (files name ≡ some file)
        × (((file.error ≡ true)
              × ((fuel : ℕ) → load_loop file.error fuel file.bytes [] ≡ none)
              × (init 3 options files (λ _. true) today [] ≡ hangs))
            ⊎ ((m : Map Bytes Bytes) × (file.error ≡ false)
                × (load_config_file (some file) [] ≡ loaded m)
                × (init 3 options files (λ _. true) today []
                    ≡ started m
                        (Log.init
                          (λ _. true)
                          today
                          (codes "./log/RpcServerLog")
                          0
                          2000
                          800000
                          800).1))))
init-ends_example = init-ends 3 options files (λ _. true) today []
