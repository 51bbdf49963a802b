-- ===== src/Wifi/Dhcp.antt =====
-- `wifi_Dhcp` (ls_wifi_test.c): the request for an address and the commands that it is set with. None is
-- a fault: the use of an array that is not initialised, or a copy between overlapping arrays where
-- `snprintf` does not do it.
use multi_test.Prelude.{
  ◌≤◌, Bool, List, [], ◌∷◌, ◌++◌, Option, none, some, ◌≡◌, arith, if◌then◌else◌, ltb, length, take,
}
use multi_test.Prelude.Int.{ℤ}
use multi_test.Prelude.Text.{Bytes, codes}
use multi_test.Prelude.Fault.{◌>>=◌}

-- The texts that `dhcp_do_request` writes and the function uses.
pub record Lease : Type 0 where
  pub gateway : Bytes
  pub dns1 : Bytes
  pub dns2 : Bytes
  pub dns3 : Bytes
  pub dns4 : Bytes

data DhcpCall : Type 0 where
  dhcp_stop dhcp_do_request : DhcpCall
  system : Bytes → DhcpCall

-- `strlen(text) > 1`
abbrev is_given : Bytes → Bool
is_given text = ltb 1 (length text)

-- The array `cmd`: the text in it, none as long as nothing has been written to it.
abbrev first_dns : Bytes → Option Bytes
first_dns dns =
    if is_given dns
    then some (take 255 (codes "ndc resolver setifdns wlan0 \"\" " ++ dns))
    else none

-- `snprintf(cmd, 256, "%s %s", cmd, dns)`. `again` is what `snprintf` does with an array that it reads and
-- writes, which C leaves open: from its text and `dns` the new text, or none.
abbrev append_dns : (Bytes → Bytes → Option Bytes) → Bytes → Option Bytes → Option (Option Bytes)
append_dns again dns none = if is_given dns then none else some none
append_dns again dns (some cmd) =
    if is_given dns then (again cmd dns >>= λ text. some (some text)) else some (some cmd)

-- The command of the resolver; none too if the array is run as it was.
unfoldable pub resolver_cmd : (Bytes → Bytes → Option Bytes) → Lease → Option Bytes
resolver_cmd again l =
    append_dns again l.dns2 (first_dns l.dns1)
    >>= append_dns again l.dns3
    >>= append_dns again l.dns4
    >>= λ cmd. cmd

-- The command of the route, in an array of zeros.
unfoldable route_cmd : Lease → Bytes
route_cmd l =
    if is_given l.gateway
    then take 127
        (codes "ip route add default via " ++ (l.gateway ++ codes " dev wlan0 table main"))
    else []

abbrev calls_of : Lease → Bytes → List DhcpCall
unfolding route_cmd
calls_of l cmd =
    dhcp_stop
    ∷ dhcp_do_request
    ∷ system (codes "ndc resolver setdefaultif wlan0")
    ∷ system cmd
    ∷ system (route_cmd l)
    ∷ []

-- `result` is the value of `dhcp_do_request`, `lease` its texts, none if it leaves the arrays as they
-- were.
unfoldable wifi_dhcp :
    (Bytes → Bytes → Option Bytes) → ℤ → Option Lease → Option (List DhcpCall × ℤ)
unfolding resolver_cmd calls_of
wifi_dhcp again result lease =
    lease >>= λ l. (resolver_cmd again l >>= λ cmd. some (calls_of l cmd, result))

-- A lease without a name server runs the array as it was.
wifi_dhcp-no_server :
    (again : Bytes → Bytes → Option Bytes) (result : ℤ) (l : Lease)
    → (length l.dns1 ≤ 1) × (length l.dns2 ≤ 1) × (length l.dns3 ≤ 1) × (length l.dns4 ≤ 1)
    → wifi_dhcp again result (some l) ≡ none
unfolding wifi_dhcp resolver_cmd
wifi_dhcp-no_server again result l (a, b, c, d) = ground arith
