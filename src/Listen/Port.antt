-- ===== src/Listen/Port.antt =====
-- Which flags give an address, and which address.
use newapi_box.Prelude.{
  ℕ, ◌≤◌, ◌≡◌, ◌≢◌, ◌↔◌, sym, refl, ap, ◌∙◌, Bool, true, false, if◌then◌else◌, [], ◌∷◌, Option,
  none, some, arith,
}
use newapi_box.Prelude.Int.{ℤ, pos, negsuc}
use newapi_box.Text.{Text, codes, trim_space, trim_prefix}
use newapi_box.Listen.{
  ListenError, resolve, address, refused, out_of_range, atoi, is_port, on_number, resolve_port,
  resolve_listen,
}

-- The port that a trimmed flag names, one colon before it aside.
abbrev named : Text → Text
named p = trim_prefix p (codes ":")

-- What trimmed flags resolve to: the -listen flag, the configured address, or a port of 1 to 65535.
pub data Gives (port listen from_config a : Text) : Type 0 where
  by_listen : port ≡ [] → listen ≢ [] → a ≡ listen → Gives port listen from_config a
  by_config : port ≡ [] → listen ≡ [] → a ≡ from_config → Gives port listen from_config a
  by_port :
      (n : ℕ)
      → port ≢ []
      → listen ≡ []
      → atoi (trim_prefix port (codes ":")) ≡ some (pos n)
      → 1 ≤ n
      → n ≤ 65535
      → a ≡ b':' ∷ trim_prefix port (codes ":")
      → Gives port listen from_config a

if-address :
    (b : Bool) (e : ListenError) {x a : Text}
    → (if b then address x else refused e) ≡ address a
    → (b ≡ true) × (a ≡ x)
if-address true e h = (refl, cc h)
if-address false e h = cc h

is_port-bounds : (n : ℕ) → is_port (pos n) ≡ true → (1 ≤ n) × (n ≤ 65535)
unfolding is_port
is_port-bounds n h = (ground arith, ground arith)

is_port-within : (n : ℕ) → 1 ≤ n → n ≤ 65535 → is_port (pos n) ≡ true
unfolding is_port
is_port-within n l u = ground arith

on_number-address :
    (port a : Text) (o : Option ℤ)
    → on_number port o ≡ address a
    → (n : ℕ) × (o ≡ some (pos n)) × (1 ≤ n) × (n ≤ 65535) × (a ≡ b':' ∷ port)
unfolding on_number is_port
on_number-address port a none h = cc h
on_number-address port a (some (negsuc n)) h = cc h
on_number-address port a (some (pos n)) h =
    let (fits, same) = if-address (is_port (pos n)) (out_of_range (pos n)) h in
    let (least, most) = is_port-bounds n fits in (n, refl, least, most, same)

on_number-within :
    {port : Text} {n : ℕ} {o : Option ℤ}
    → o ≡ some (pos n)
    → 1 ≤ n
    → n ≤ 65535
    → on_number port o ≡ address (b':' ∷ port)
unfolding on_number
on_number-within e l u = rw e (rw (is_port-within _ l u) refl)

-- The switch of resolveListen on flags that are trimmed.
module _ (c a : Text) where
  resolve-Gives : (p l : Text) → resolve p l c ≡ address a → Gives p l c a
  unfolding resolve resolve_port
  resolve-Gives [] [] h = by_config refl refl (cc h)
  resolve-Gives [] (x ∷ l) h = by_listen refl (λ e. cc e) (cc h)
  resolve-Gives (y ∷ p) (x ∷ l) h = cc h
  resolve-Gives (y ∷ p) [] h =
      let (n, number, least, most, same) = on_number-address (named (y ∷ p)) a _ h in
      by_port n (λ e. cc e) refl number least most same

  Gives-resolve : (p l : Text) → Gives p l c a → resolve p l c ≡ address a
  unfolding resolve resolve_port
  Gives-resolve [] [] (by_config _ _ e) = ap address (sym e)
  Gives-resolve [] (x ∷ l) (by_listen _ _ e) = ap address (sym e)
  Gives-resolve (y ∷ p) [] (by_port n _ _ number least most e) =
      on_number-within number least most ∙ ap address (sym e)
  Gives-resolve (y ∷ p) l (by_listen e _ _) = cc e
  Gives-resolve (y ∷ p) l (by_config e _ _) = cc e
  Gives-resolve [] [] (by_listen _ h _) = absurd (h refl)
  Gives-resolve [] (x ∷ l) (by_config _ e _) = cc e
  Gives-resolve [] l (by_port n h _ _ _ _ _) = absurd (h refl)
  Gives-resolve p (x ∷ l) (by_port n _ e _ _ _ _) = cc e

-- The flags resolve to an address exactly when they are the -listen flag alone, or no flag, or a
-- -port flag alone whose number, behind a colon if there is one, is 1 to 65535; blanks round a flag
-- aside. The address is that flag, the configured one, or the port behind a colon.
pub resolve_listen_iff :
    (port listen from_config a : Text)
    → (resolve_listen port listen from_config ≡ address a)
      ↔ Gives (trim_space port) (trim_space listen) from_config a
unfolding resolve_listen
resolve_listen_iff port listen c a = (
  resolve-Gives c a (trim_space port) (trim_space listen),
  Gives-resolve c a (trim_space port) (trim_space listen),
)
