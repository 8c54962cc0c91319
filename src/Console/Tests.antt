-- ===== src/Console/Tests.antt =====
-- Tests of the console program.
use t2h.Common.{
  ℕ, ◌-◌, true, false, List, [], ◌∷◌, Option, none, some, Bytes, codes, size, pos, ◌≡◌, refl,
}
use t2h.Core.World.{returns}
use t2h.Core.Resolvers.{register_default_resolvers}
use t2h.Core.Samples.{libtorrent-HasBytes, paths}
use t2h.Settings.{configured, init_config, load_config, config_is_well, is_empty}
use t2h.Api.Start.{configure}
use t2h.Api.Functions.{t2h_init_, t2h_init_2}
use t2h.Api.Calls.{program}
use t2h.Api.Init.{t2h_init_lem}
use t2h.Api.Samples.{environment, core, server, core_starts, server_starts}
use t2h.Console.{Addition, Variables, start_app, addrents_from_directory, console_controller}
use t2h.Console.Session.{begin, console_controller-IsServed}

abbrev one_digit : Bytes → Option ℕ
one_digit (c ∷ []) = some (c - b'0')
one_digit _ = none

abbrev addition : Addition
addition = record { resolvers = register_default_resolvers; now = 3; paths = paths; rounds = [] }

abbrev nothing : Variables
nothing = record {
  stop = none;
  pause = none;
  remove = none;
  resume = none;
  get_info = none;
  start = none;
  add = none;
  get_ids = false;
  quit = false;
}

abbrev commands : List (Addition × Variables)
commands =
    (addition, record nothing { add = some (codes "a.torrent") })
    ∷ (addition, record nothing { start = some (codes "1,0") })
    ∷ (addition, record nothing { pause = some 1 })
    ∷ (addition, record nothing { quit = true })
    ∷ []

initialised : (t2h_init_ environment true (some (codes "/c")) true program).1 ≡ returns (pos 1)
unfolding configure init_config load_config configured config_is_well is_empty size
initialised =
    ((((t2h_init_lem environment true (codes "/c") true program).1 refl).1 core core_starts).1
      server server_starts).0

starts : (begin environment true libtorrent-HasBytes one_digit (codes "/c") []).1 ≡ returns tt
unfolding start_app t2h_init_2 addrents_from_directory
starts = rw (initialised, start_app) refl

console_controller-IsServed_example :
    (console_controller environment true one_digit commands
      (begin environment true libtorrent-HasBytes one_digit (codes "/c") []).0).1
    ≡ true
console_controller-IsServed_example =
    (console_controller-IsServed environment true libtorrent-HasBytes one_digit (codes "/c") []
      commands starts (refl, (refl, (refl, (refl, tt))))).0
