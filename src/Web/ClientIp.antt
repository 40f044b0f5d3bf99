-- ===== src/Web/ClientIp.antt =====
-- web/client_ip.py: the address of the caller, behind as many proxies as are trusted.
pub mod Forged
use pos_pay.Base.{
  ℕ, suc, ◌-◌, Text, Bool, true, false, not, ◌&&◌, Option, none, some, List, [], ◌∷◌, ◌==◌, ltb,
  leb, if◌then◌else◌, length, select, drop, head?, map, strip,
}

-- `s.split(",")`
abbrev pub put_first : ℕ → List Text → List Text
put_first c [] = (c ∷ []) ∷ []
put_first c (part ∷ parts) = (c ∷ part) ∷ parts

abbrev pub comma : ℕ
comma = 44

abbrev pub split : Text → List Text
split [] = [] ∷ []
split (c ∷ s) = let rest = split s in if c == comma then [] ∷ rest else put_first c rest

abbrev pub is_filled : Text → Bool
is_filled [] = false
is_filled (c ∷ s) = true

-- The stripped parts that are not empty.
unfoldable pub hops_of : Text → List Text
hops_of forwarded = select is_filled (map strip (split forwarded))

-- `hops[-n]` if there are so many
abbrev pub from_right : ℕ → List Text → Option Text
from_right n hops = if leb n (length hops) then head? (drop (length hops - n) hops) else none

abbrev pub or_peer : Option Text → Option Text → Option Text
or_peer none peer = peer
or_peer (some hop) peer = some hop

-- The header and the address of the peer, where there are any. An empty header has no hops.
unfoldable pub get_client_ip : ℕ → Option Text → Option Text → Option Text
get_client_ip trusted_hops none peer = peer
get_client_ip trusted_hops (some forwarded) peer =
    if ltb 0 trusted_hops && is_filled forwarded
    then or_peer (from_right trusted_hops (hops_of forwarded)) peer
    else peer
