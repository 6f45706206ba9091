-- ===== src/Dns/Dual/Choice.antt =====
-- checknetfamily, and what socket_gethostbyname makes of it.
use personal_journal.Base.{
  ℕ, zero, suc, ◌≡◌, refl, Bool, true, false, not, ◌&&◌, Option, List, ◌∷◌, ◌++◌, replicate, ok,
  if◌then◌else◌,
}
use personal_journal.Dns.Memory.{Bytes}
use personal_journal.Dns.Host.{Net}
use personal_journal.Dns.Dual.{
  DualInfo, Connect, interrupted, connected, refused, connect_rounds, test_connect, checknetfamily,
  ask_family, family_of, socketv6_gethostbyname, socketv4_gethostbyname, dual_gethostbyname,
}

-- How connect ends when it is not interrupted.
abbrev pub settled : Bool → Connect
settled true = connected
settled false = refused

connect_rounds-settled :
    (k : ℕ) (b : Bool) (more : List Connect)
    → connect_rounds (replicate k interrupted ++ settled b ∷ more) ≡ ok b
unfolding connect_rounds
connect_rounds-settled zero true more = refl
connect_rounds-settled zero false more = refl
connect_rounds-settled (suc k) b more = connect_rounds-settled k b more

-- A family whose calls of connect are interrupted a number of times and then end.
test_connect-settled :
    (socket : Bool) (k : ℕ) (b : Bool) (more : List Connect)
    → test_connect socket (replicate k interrupted ++ settled b ∷ more) ≡ ok (socket && b)
unfolding test_connect
test_connect-settled false k b more = refl
test_connect-settled true k b more = connect_rounds-settled k b more

ask_family-choice :
    (v4 v6 : Bool) (net4 net6 : Net) (host : Option Bytes) (info : Option DualInfo)
    → ask_family (family_of v4 v6) net4 net6 host info ≡ (
        if v6 && not v4
        then socketv6_gethostbyname net6 host info
        else socketv4_gethostbyname net4 host info)
ask_family-choice true true net4 net6 host info = refl
ask_family-choice true false net4 net6 host info = refl
ask_family-choice false true net4 net6 host info = refl
ask_family-choice false false net4 net6 host info = refl

-- The query goes over IPv6 just when a connection over IPv6 succeeds and one over IPv4 does not, and
-- over IPv4 otherwise, also when neither does, however often the calls of connect are interrupted
-- before they end.
pub dual_gethostbyname-choice :
    (socket4 socket6 b4 b6 : Bool) (k4 k6 : ℕ) (more4 more6 : List Connect) (net4 net6 : Net)
    (host : Option Bytes) (info : Option DualInfo)
    → dual_gethostbyname
        (record {
          socket4 = socket4;
          calls4 = replicate k4 interrupted ++ settled b4 ∷ more4;
          socket6 = socket6;
          calls6 = replicate k6 interrupted ++ settled b6 ∷ more6;
        })
        net4
        net6
        host
        info
      ≡ (if (socket6 && b6) && not (socket4 && b4)
          then socketv6_gethostbyname net6 host info
          else socketv4_gethostbyname net4 host info)
unfolding dual_gethostbyname checknetfamily
dual_gethostbyname-choice socket4 socket6 b4 b6 k4 k6 more4 more6 net4 net6 host info =
    rw (test_connect-settled socket4 k4 b4 more4, test_connect-settled socket6 k6 b6 more6)
      (ask_family-choice (socket4 && b4) (socket6 && b6) net4 net6 host info)
