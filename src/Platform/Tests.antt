-- ===== src/Platform/Tests.antt =====
-- Concrete runs of the rate limiter and of the address of a client.
use vpn_price_public.Base.{◌-◌, ◌≡◌, refl, none, some, [], ◌∷◌, min, arith, codes}
use vpn_price_public.Platform.Security.{client_ip}
use vpn_price_public.Platform.Windows.{passed, passed-limit, passed-stuck}

passed-limit_example : passed 2 60 (100 ∷ 110 ∷ 159 ∷ []) none ≡ min 2 3
passed-limit_example =
    passed-limit 2 60 100 (110 ∷ 159 ∷ []) (omega arith) (omega arith)
      (omega arith, (omega arith, tt))

passed-stuck_example :
    passed 2 60 (110 ∷ 5000 ∷ 900000 ∷ []) (some (record { count = 1; expires = none }))
    ≡ min (2 - 1) 3
passed-stuck_example = passed-stuck 2 60 (110 ∷ 5000 ∷ 900000 ∷ []) 1 (omega arith)

first_forwarded :
    client_ip (codes " 10.1.2.3 , 10.0.0.1") (codes "127.0.0.1:80") (some (codes "127.0.0.1"))
    ≡ codes "10.1.2.3"
unfolding client_ip
first_forwarded = refl
