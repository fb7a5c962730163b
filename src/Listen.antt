-- ===== src/Listen.antt =====
-- main.go: the address that the server binds. net.SplitHostPort is an argument of display_listen.
pub mod Port
use newapi_box.Prelude.{
  ℕ, zero, suc, ◌+◌, ◌-◌, ◌*◌, leb, Bool, true, false, not, ◌&&◌, ◌||◌, ◌==◌, if◌then◌else◌, List,
  [], ◌∷◌, Option, none, some, is_empty,
}
use newapi_box.Prelude.Int.{ℤ, pos, negsuc}
use newapi_box.Text.{Text, codes, trim_space, trim_prefix}
use newapi_box.Config.{default_listen}

pub data ListenError : Type 0 where
  both_given : ListenError
  not_a_number : Text → ListenError
  out_of_range : ℤ → ListenError

pub data Resolved : Type 0 where
  address : Text → Resolved
  refused : ListenError → Resolved

abbrev is_digit : ℕ → Bool
is_digit c = leb 48 c && leb c 57

-- The value of decimal digits behind those read so far.
read_digits : ℕ → Text → Option ℕ
read_digits n [] = some n
read_digits n (c ∷ s) =
    let rest = read_digits (n * 10 + (c - 48)) s in if is_digit c then rest else none

-- Digits, of which there is one at least.
read_number : Text → Option ℕ
unfolding read_digits
read_number [] = none
read_number (c ∷ s) = read_digits 0 (c ∷ s)

-- -n
negate : ℕ → ℤ
negate zero = pos 0
negate (suc n) = negsuc n

-- strconv.Atoi: a sign, if any, and digits; an int has 64 bits.
unfoldable pub atoi : Text → Option ℤ
unfolding read_number negate
atoi [] = none
atoi (c ∷ s) =
    if c == b'-'
    then elim (read_number s) [
      | none ↦ none
      | some n ↦ (if leb n 9_223_372_036_854_775_808 then some (negate n) else none)
    ]
    else elim (read_number (if c == b'+' then s else c ∷ s)) [
      | none ↦ none
      | some n ↦ (if leb n 9_223_372_036_854_775_807 then some (pos n) else none)
    ]

unfoldable pub is_port : ℤ → Bool
is_port (pos n) = leb 1 n && leb n 65535
is_port (negsuc n) = false

unfoldable pub on_number : Text → Option ℤ → Resolved
unfolding is_port
on_number port none = refused (not_a_number port)
on_number port (some n) = if is_port n then address (b':' ∷ port) else refused (out_of_range n)

-- The part of resolveListen behind its switch.
unfoldable pub resolve_port : Text → Resolved
unfolding on_number atoi
resolve_port port = on_number (trim_prefix port (codes ":")) (atoi (trim_prefix port (codes ":")))

-- The switch of resolveListen, on the trimmed flags, and what follows it.
unfoldable pub resolve : Text → Text → Text → Resolved
unfolding resolve_port
resolve port listen from_config =
    if not (is_empty port) && not (is_empty listen)
    then refused both_given
    else if not (is_empty listen)
    then address listen
    else if is_empty port
    then address from_config
    else resolve_port port

-- resolveListen
unfoldable pub resolve_listen : Text → Text → Text → Resolved
unfolding resolve
resolve_listen port listen from_config = resolve (trim_space port) (trim_space listen) from_config

-- displayListen; `split_host_port` is net.SplitHostPort, `none` where it errs.
unfoldable display_listen : (Text → Option (Text × Text)) → Text → Text
display_listen split_host_port [] = default_listen
display_listen split_host_port (c ∷ s) = elim (split_host_port (c ∷ s)) [
  | none ↦ c ∷ s
  | some (host, port) ↦ (if is_empty port then c ∷ s else b':' ∷ port)
]
