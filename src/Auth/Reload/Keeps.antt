-- ===== src/Auth/Reload/Keeps.antt =====
-- What a map of sessions that may be stored keeps of it when one is put or deleted.
use run_pilot.Prelude.{
  All, Option, [], ap, arith, false, if-cases, length, none, refl, ◌<◌, ◌∙◌, ◌∷◌, ◌≡◌,
}
use run_pilot.Prelude.Bytes.{Bytes, str_eq, str_eq_iff, str_eq→eq}
use run_pilot.Prelude.Dict.{
  Dict, delete, find, find-delete, find-put, length-delete, length-put, put,
}
use run_pilot.Auth.{AuthSession, is_invalid, max_sessions}
use run_pilot.Auth.Reload.{IsDistinct, IsStorable, IsValid}

find-put-none :
    (k id : Bytes) (r : AuthSession) (m : Dict AuthSession)
    → str_eq id k ≡ false
    → find k m ≡ none
    → find k (put id r m) ≡ none
find-put-none k id r m other h = find-put id k r m ∙ rw other h

IsDistinct-put :
    (id : Bytes) (r : AuthSession) (m : Dict AuthSession) → IsDistinct m → IsDistinct (put id r m)
unfolding put find
IsDistinct-put id r [] d = (refl, tt)
IsDistinct-put id r ((k, a) ∷ m) (new, d) =
    if-cases IsDistinct (str_eq k id) (λ same. (new, d))
      (λ other. (
        find-put-none k id r m (ground (arith, str_eq_iff id k, str_eq_iff k id)) new,
        IsDistinct-put id r m d,
      ))

find-delete-none :
    (k id : Bytes) (m : Dict AuthSession) → find k m ≡ none → find k (delete id m) ≡ none
find-delete-none k id m h =
    find-delete id k m
    ∙ if-cases (λ (o : Option AuthSession). o ≡ none) (str_eq id k) (λ s. refl) (λ o. h)

IsDistinct-delete : (id : Bytes) (m : Dict AuthSession) → IsDistinct m → IsDistinct (delete id m)
unfolding delete
IsDistinct-delete id [] d = tt
IsDistinct-delete id ((k, a) ∷ m) (new, d) =
    if-cases IsDistinct (str_eq k id) (λ same. IsDistinct-delete id m d)
      (λ other. (find-delete-none k id m new, IsDistinct-delete id m d))

All-put :
    (id : Bytes) (r : AuthSession) (m : Dict AuthSession)
    → IsStorable (id, r)
    → All IsStorable m
    → All IsStorable (put id r m)
unfolding put
All-put id r [] g a = (g, tt)
All-put id r ((k, b) ∷ m) g (h, a) =
    if-cases (All IsStorable) (str_eq k id)
      (λ same. (ap (λ j. is_invalid j r) (str_eq→eq k id same) ∙ g, a))
      (λ other. (h, All-put id r m g a))

All-delete : (id : Bytes) (m : Dict AuthSession) → All IsStorable m → All IsStorable (delete id m)
unfolding delete
All-delete id [] a = tt
All-delete id ((k, b) ∷ m) (h, a) =
    if-cases (All IsStorable) (str_eq k id) (λ same. All-delete id m a)
      (λ other. (h, All-delete id m a))

pub IsValid-delete : (id : Bytes) (m : Dict AuthSession) → IsValid m → IsValid (delete id m)
IsValid-delete id m v = record {
  distinct = IsDistinct-delete id m v.distinct;
  storable = All-delete id m v.storable;
  within = omega (arith, length-delete id m, v.within);
}

pub IsValid-put :
    (id : Bytes) (r : AuthSession) (m : Dict AuthSession)
    → IsStorable (id, r)
    → IsValid m
    → length m < max_sessions
    → IsValid (put id r m)
IsValid-put id r m g v h = record {
  distinct = IsDistinct-put id r m v.distinct;
  storable = All-put id r m g v.storable;
  within = omega (arith, length-put id r m);
}
