-- ===== src/Telnet/Tests.antt =====
-- The theorems on the Telnet login at concrete scripts.
use echidra_oss.Base.{◌≤◌, List, [], ◌∷◌, ◌≡◌, refl, arith, true, length, All}
use echidra_oss.Base.Text.{Text, codes}
use echidra_oss.Session.{one_of, end_reasons}
use echidra_oss.Network.{Outcome, arrived, timed_out}
use echidra_oss.Telnet.Login.{handle}
use echidra_oss.Telnet.Bounds.{IsCredential, handle_bounds}
use echidra_oss.Telnet.Burst.{burst_of, logged_of, handle_burst}

abbrev impatient : List Outcome
impatient = arrived (codes "root\r\n") ∷ arrived [] ∷ arrived [] ∷ timed_out ∷ []

handle_bounds_example :
    (one_of end_reasons (handle (codes "Linux") (codes "router login: ") impatient).0 ≡ true)
    × (length (handle (codes "Linux") (codes "router login: ") impatient).1.logged ≤ 10)
    × All IsCredential (handle (codes "Linux") (codes "router login: ") impatient).1.logged
handle_bounds_example = handle_bounds (codes "Linux") (codes "router login: ") impatient

abbrev two_pairs : List (Text × Text)
two_pairs = (codes "root", codes "xc3511") ∷ (codes "admin", codes "admin") ∷ []

handle_burst_example :
    ((handle (codes "Linux") (codes "router login: ") (arrived (burst_of two_pairs) ∷ [])).0
      ≡ "disconnect")
    × ((handle
          (codes "Linux")
          (codes "router login: ")
          (arrived (burst_of two_pairs) ∷ [])).1.logged
        ≡ logged_of two_pairs)
handle_burst_example =
    handle_burst (codes "Linux") (codes "router login: ") two_pairs (omega arith) (omega arith) (
      (
        (refl, (refl, (refl, (refl, tt)))),
        refl,
        (refl, (refl, (refl, (refl, (refl, (refl, tt)))))),
        refl,
      ),
      (
        (
          (refl, (refl, (refl, (refl, (refl, tt))))),
          refl,
          (refl, (refl, (refl, (refl, (refl, tt))))),
          refl,
        ),
        tt,
      ),
    )
