-- ===== src/Registry/Tally.antt =====
-- How often a channel occurs among the waiters and the sends.
use lemul.Prelude.{ℕ, ◌+◌, ◌≤◌, ◌≡◌, refl, List, [], ◌∷◌, ◌++◌, arith, ◌==◌, if◌then◌else◌}
use lemul.Prelude.Dict.{string_key, Dict, lookup, without, put}
use lemul.Registry.{Tunnel, WsKey, ws_key, get, put_or_delete, remove_chan, sends}

unfoldable pub count : ℕ → List ℕ → ℕ
count c [] = 0
count c (x ∷ xs) = (if x == c then 1 else 0) + count c xs

-- How often a channel is in the map of waiters, and how often something was sent on it.
unfoldable pub waits : ℕ → Dict WsKey (List ℕ) → ℕ
waits c [] = 0
waits c ((k, cs) ∷ d) = count c cs + waits c d

unfoldable pub sent_on : ℕ → List (ℕ × Tunnel) → ℕ
sent_on c [] = 0
sent_on c ((x, t) ∷ l) = (if x == c then 1 else 0) + sent_on c l

pub count-append : (c : ℕ) (xs ys : List ℕ) → count c (xs ++ ys) ≡ count c xs + count c ys
unfolding count
count-append c [] ys = omega arith
count-append c (x ∷ xs) ys = omega (arith, count-append c xs ys)

pub count-remove_chan : (c x : ℕ) (xs : List ℕ) → count c (remove_chan xs x) ≤ count c xs
unfolding count remove_chan
count-remove_chan c x [] = omega arith
count-remove_chan c x (y ∷ xs) = ground (arith, count-remove_chan c x xs)

pub sent_on-append :
    (c : ℕ) (l m : List (ℕ × Tunnel)) → sent_on c (l ++ m) ≡ sent_on c l + sent_on c m
unfolding sent_on
sent_on-append c [] m = omega arith
sent_on-append c ((x, t) ∷ l) m = omega (arith, sent_on-append c l m)

pub sent_on-sends : (c : ℕ) (cs : List ℕ) (t : Tunnel) → sent_on c (sends cs t) ≡ count c cs
unfolding sent_on sends count
sent_on-sends c [] t = refl
sent_on-sends c (x ∷ cs) t = omega (arith, sent_on-sends c cs t)

pub waits-without :
    (c : ℕ) (k : WsKey) (d : Dict WsKey (List ℕ)) → waits c (without k d) ≤ waits c d
unfolding waits without
waits-without c k [] = omega arith
waits-without c k ((j, cs) ∷ d) = ground (arith, waits-without c k d)

pub waits-get :
    (c : ℕ) (k : WsKey) (d : Dict WsKey (List ℕ))
    → waits c (without k d) + count c (get k d) ≤ waits c d
unfolding waits without get lookup count
waits-get c k [] = omega arith
waits-get c k ((j, cs) ∷ d) = ground (arith, waits-get c k d, waits-without c k d)

pub waits-put_or_delete :
    (c : ℕ) (k : WsKey) (cs : List ℕ) (d : Dict WsKey (List ℕ))
    → waits c (put_or_delete k cs d) ≤ count c cs + waits c (without k d)
unfolding put_or_delete put waits
waits-put_or_delete c k [] d = omega (arith, waits-without c k (put k [] d))
waits-put_or_delete c k (x ∷ cs) d = ground arith
