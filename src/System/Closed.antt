-- ===== src/System/Closed.antt =====
-- Which runtimes are closed: Apply closes the one that it takes the place of, in a step behind the
-- swap.
use mathlib.Core.List.{Perm, perm_middle}
use mathlib.Core.List.Perm
use newapi_box.Prelude.{
  ◌≡◌, refl, sym, ap, ◌∙◌, subst, List, [], ◌∷◌, ◌++◌, Option, none, some, append_assoc,
}
use newapi_box.Prelude.Int.{ℤ}
use newapi_box.Text.{Text}
use newapi_box.Config.{Config}
use newapi_box.Proxy.Admit.{Runtime}
use newapi_box.Admin.Save.{Live, close}
use newapi_box.System.{
  Saver, planned, stored, swapped, System, Step, begin, finish, plan, save_fails, save_succeeds,
  apply_fails, swap, close_previous, Reach, here, later,
}

-- The runtimes that a save has taken out and has yet to close.
abbrev pub to_close : List Saver → List Runtime
to_close [] = []
to_close (planned next ∷ ss) = to_close ss
to_close (stored next ∷ ss) = to_close ss
to_close (swapped previous ∷ ss) = close previous (to_close ss)

to_close-append : (xs ys : List Saver) → to_close (xs ++ ys) ≡ to_close xs ++ to_close ys
unfolding close
to_close-append [] ys = refl
to_close-append (planned next ∷ xs) ys = to_close-append xs ys
to_close-append (stored next ∷ xs) ys = to_close-append xs ys
to_close-append (swapped none ∷ xs) ys = to_close-append xs ys
to_close-append (swapped (some rt) ∷ xs) ys = ap (λ l. rt ∷ l) (to_close-append xs ys)

-- The live runtime, if any, those that wait to be closed, and the closed ones.
abbrev pub runtimes : System → List Runtime
runtimes s = close s.live.runtime (to_close s.savers ++ s.live.closed)

-- A saver that has nothing to close does not count.
abbrev IsIdle : Saver → Type 0
IsIdle x = (ys : List Saver) → to_close (x ∷ ys) ≡ to_close ys

to_close-drop :
    (before : List Saver) (x : Saver) (after : List Saver)
    → IsIdle x
    → to_close (before ++ x ∷ after) ≡ to_close (before ++ after)
to_close-drop before x after idle =
    to_close-append before (x ∷ after)
    ∙ ap (λ l. to_close before ++ l) (idle after)
    ∙ sym (to_close-append before after)

close-Perm :
    (o : Option Runtime) {xs ys : List Runtime} → Perm xs ys → Perm (close o xs) (close o ys)
unfolding close
close-Perm none p = p
close-Perm (some rt) p = Perm.cons rt p

close-cons :
    (o : Option Runtime) (rt : Runtime) (xs : List Runtime)
    → Perm (rt ∷ close o xs) (close o (rt ∷ xs))
unfolding close
close-cons none rt xs = Perm.refl _
close-cons (some old) rt xs = Perm.swap old rt xs

close-behind :
    (xs : List Runtime) (o : Option Runtime) (ys : List Runtime)
    → Perm (xs ++ close o ys) (close o (xs ++ ys))
unfolding close
close-behind xs none ys = Perm.refl _
close-behind xs (some rt) ys = perm_middle xs ys

-- What a saver waits to close can be counted in front.
to_close-swapped :
    (before : List Saver) (o : Option Runtime) (after : List Saver) (rest : List Runtime)
    → Perm
        (to_close (before ++ swapped o ∷ after) ++ rest)
        (close o (to_close (before ++ after) ++ rest))
unfolding close
to_close-swapped [] none after rest = Perm.refl _
to_close-swapped [] (some rt) after rest = Perm.refl _
to_close-swapped (planned next ∷ before) o after rest = to_close-swapped before o after rest
to_close-swapped (stored next ∷ before) o after rest = to_close-swapped before o after rest
to_close-swapped (swapped none ∷ before) o after rest = to_close-swapped before o after rest
to_close-swapped (swapped (some rt) ∷ before) o after rest =
    Perm.trans (Perm.cons rt (to_close-swapped before o after rest))
      (close-cons o rt (to_close (before ++ after) ++ rest))

Perm-path : {xs ys : List Runtime} → xs ≡ ys → Perm xs ys
Perm-path {xs} e = subst (Perm xs) e (Perm.refl xs)

-- The same runtimes, by the same ones to close.
runtimes-path :
    (l : Live) {xs ys : List Runtime}
    → xs ≡ ys
    → Perm (close l.runtime (xs ++ l.closed)) (close l.runtime (ys ++ l.closed))
runtimes-path l e = Perm-path (ap (λ xs. close l.runtime (xs ++ l.closed)) e)

module _ {ℓ} (P V W S : Type ℓ) (parse_duration : Text → Option ℤ)
    (encode : Config → Option Text) where
  -- The runtime that a step makes the live one, if any.
  pub published_by : {s t : System} → Step P V W S parse_duration encode s t → List Runtime
  published_by (swap before after next rt e made) = rt ∷ []
  published_by _ = []

  -- The runtimes that have been made the live one, the last one first.
  pub published : {s t : System} → Reach P V W S parse_duration encode s t → List Runtime
  published here = []
  published (later r st) = published_by st ++ published r

  Step-closed :
      {s t : System} (st : Step P V W S parse_duration encode s t)
      → Perm (runtimes t) (published_by st ++ runtimes s)
  unfolding published_by close
  Step-closed (begin q) = Perm.refl _
  Step-closed (finish host before after f e) = Perm.refl _
  Step-closed (plan c path method v e) = Perm.refl _
  Step-closed {s} (save_fails a before after next e k) =
      runtimes-path s.live
        (sym (to_close-drop before (planned next) after (λ ys. refl)) ∙ sym (ap to_close e))
  Step-closed {s} (save_succeeds a before after next e k) = runtimes-path s.live (
      to_close-drop before (stored next) after (λ ys. refl)
      ∙ sym (to_close-drop before (planned next) after (λ ys. refl))
      ∙ sym (ap to_close e))
  Step-closed {s} (apply_fails before after next e k) =
      runtimes-path s.live
        (sym (to_close-drop before (stored next) after (λ ys. refl)) ∙ sym (ap to_close e))
  Step-closed {s} (swap before after next rt e made) =
      let left = to_close-drop before (stored next) after (λ ys. refl) in
      Perm.trans (close-Perm (some rt) (to_close-swapped before s.live.runtime after s.live.closed))
        (close-Perm (some rt) (runtimes-path s.live (sym left ∙ sym (ap to_close e))))
  Step-closed {s} (close_previous before after previous e) =
      let rest = to_close (before ++ after) in
      close-Perm s.live.runtime (
        Perm.trans (close-behind rest previous s.live.closed) (
          Perm.trans (Perm.symm (to_close-swapped before previous after s.live.closed))
            (Perm-path (ap (λ ss. to_close ss ++ s.live.closed) (sym e)))))

  -- Whatever requests and saves come between one another, also between the swap and the close of one
  -- Apply: the runtimes that Apply has published since the start, each counted as often as it was
  -- published, and those of the start are, up to their order, the live one, those that an Apply has
  -- swapped out and has yet to close, and the closed ones. So what has been replaced has been closed
  -- once or waits for it, and what is live has not been closed.
  pub Reach-closed :
      {s t : System} (r : Reach P V W S parse_duration encode s t)
      → Perm (runtimes t) (published r ++ runtimes s)
  unfolding published
  Reach-closed here = Perm.refl _
  Reach-closed {s} (later r st) = Perm.trans (Step-closed st) (
      Perm.trans (Perm.append_left (published_by st) (Reach-closed r))
        (Perm-path (sym (append_assoc (published_by st) (published r) (runtimes s)))))
