-- ===== src/Web/ClientIp/Forged.antt =====
-- web/client_ip.py: what a client writes into the header does not count.
use pos_pay.Base.{
  ℕ, suc, ◌+◌, ◌-◌, ◌≤◌, ◌<◌, Text, true, ◌&&◌, Option, none, some, List, [], ◌∷◌, ◌++◌, ◌==◌, ltb,
  leb, if◌then◌else◌, length, length-append, length-drop, select, drop, head?, map, strip, ◌≡◌,
  refl, ap, sym, ◌∙◌, arith, Bool-cases, inl, inr,
}
use pos_pay.Web.ClientIp.{
  put_first, comma, split, is_filled, hops_of, from_right, or_peer, get_client_ip,
}

split-filled : (s : Text) → (h : Text) × ((t : List Text) × (split s ≡ h ∷ t))
split-filled [] = ([], ([], refl))
split-filled (c ∷ s) =
    let (h, (t, e)) = split-filled s in
    elim (Bool-cases (c == comma)) [
      | inl is ↦ ([], (h ∷ t, rw is (rw e refl)))
      | inr other ↦ (c ∷ h, (t, rw other (rw e refl)))
    ]

split-append : (s t : Text) → split (s ++ comma ∷ t) ≡ split s ++ split t
split-append [] t = refl
split-append (c ∷ s) t =
    let (h, (rest, e)) = split-filled s in
    elim (Bool-cases (c == comma)) [
      | inl is ↦ rw is (ap (λ l. [] ∷ l) (split-append s t))
      | inr other ↦ rw other (
          ap (put_first c) (split-append s t)
          ∙ ap (λ l. put_first c (l ++ split t)) e
          ∙ sym (ap (λ l. put_first c l ++ split t) e))
    ]

filled-append :
    (xs ys : List Text)
    → select is_filled (map strip (xs ++ ys))
      ≡ select is_filled (map strip xs) ++ select is_filled (map strip ys)
filled-append [] ys = refl
filled-append (x ∷ xs) ys = elim (Bool-cases (is_filled (strip x))) [
  | inl e ↦ rw e (ap (λ l. strip x ∷ l) (filled-append xs ys))
  | inr e ↦ rw e (filled-append xs ys)
]

drop-append :
    (xs ys : List Text) (n : ℕ)
    → n ≤ length ys
    → drop (length (xs ++ ys) - n) (xs ++ ys) ≡ drop (length ys - n) ys
drop-append [] ys n le = refl
drop-append (x ∷ xs) ys n le =
    let more = length-append xs ys in
    ap (λ k. drop k (x ∷ (xs ++ ys))) (before more) ∙ drop-append xs ys n le
  where
    before :
        length (xs ++ ys) ≡ length xs + length ys
        → suc (length (xs ++ ys)) - n ≡ suc (length (xs ++ ys) - n)
    before more = omega (arith, more, le)

head-some : (xs : List Text) → 0 < length xs → (x : Text) × (head? xs ≡ some x)
head-some [] h = absurd (omega (arith, h))
head-some (x ∷ xs) h = (x, refl)

from_right-some :
    (n : ℕ) (ys : List Text) → 0 < n → n ≤ length ys → (y : Text) × (from_right n ys ≡ some y)
from_right-some n ys positive enough =
    let (y, e) =
      head-some (drop (length ys - n) ys)
        (omega (arith, length-drop (length ys - n) ys, positive, enough)) in
    (
      y,
      ap (λ b. if b then head? (drop (length ys - n) ys) else none) (fits n (length ys) enough) ∙ e,
    )
  where
    fits : (n m : ℕ) → n ≤ m → leb n m ≡ true
    fits n m le = ground (arith, le)

from_right-append :
    (n : ℕ) (xs ys : List Text) → n ≤ length ys → from_right n (xs ++ ys) ≡ from_right n ys
from_right-append n xs ys enough =
    ap (λ b. if b then head? (drop (length (xs ++ ys) - n) (xs ++ ys)) else none)
      (both (length (xs ++ ys)) (length-append xs ys))
    ∙ ap (λ l. if leb n (length ys) then head? l else none) (drop-append xs ys n enough)
  where
    both : (k : ℕ) → k ≡ length xs + length ys → leb n k ≡ leb n (length ys)
    both k e = ground (arith, e, enough)

-- A client cannot choose its address: where at least one proxy is trusted, and what the proxies
-- appended to the header holds as many hops as are trusted, the address is the hop that many
-- places from the right of what they appended, whatever the client had written before it and
-- whatever the peer is.
pub forged_ignored :
    (trusted_hops : ℕ) (forged proxied : Text) (peer : Option Text)
    → 0 < trusted_hops
    → trusted_hops ≤ length (hops_of proxied)
    → get_client_ip trusted_hops (some (forged ++ comma ∷ proxied)) peer
      ≡ from_right trusted_hops (hops_of proxied)
unfolding get_client_ip hops_of
forged_ignored trusted_hops forged proxied peer some_hops enough =
    let split_hops =
      ap (λ l. select is_filled (map strip l)) (split-append forged proxied)
      ∙ filled-append (split forged) (split proxied) in
    let (hop, e) = from_right-some trusted_hops (hops_of proxied) some_hops enough in
    let found =
      ap (from_right trusted_hops) split_hops
      ∙ from_right-append trusted_hops (hops_of forged) (hops_of proxied) enough in
    ap
      (λ b.
        if b
        then or_peer (from_right trusted_hops (hops_of (forged ++ comma ∷ proxied))) peer
        else peer)
      (read_header forged)
    ∙ ap (λ o. or_peer o peer) (found ∙ e)
    ∙ sym e
  where
    read_header : (s : Text) → (ltb 0 trusted_hops && is_filled (s ++ comma ∷ proxied)) ≡ true
    read_header [] = ground (arith, some_hops)
    read_header (c ∷ s) = ground (arith, some_hops)
