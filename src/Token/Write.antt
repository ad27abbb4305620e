-- ===== src/Token/Write.antt =====
-- About `_write` when the process or the disk gives up in the middle of it.
use ezviz_stream_bridge.Prelude.{
  ℕ, zero, suc, ◌≤◌, ◌<◌, ◌≡◌, ◌⊎◌, refl, inl, inr, true, none, some, [], arith, take, ap,
}
use ezviz_stream_bridge.Token.{Token, FileStep, object, Files, file_step, file_steps, write}

take_nil : (n : ℕ) → take {A = FileStep} n [] ≡ []
take_nil zero = refl
take_nil (suc n) = refl

pub write-done :
    (token : Token) (files : Files) (done : ℕ)
    → 5 ≤ done
    → write token files done ≡ record {
      target = some (record { content = object token; owner_only = true });
      temporary = none;
    }
unfolding write file_steps file_step
write-done token files zero h = absurd (omega arith)
write-done token files (suc zero) h = absurd (omega arith)
write-done token files (suc (suc zero)) h = absurd (omega arith)
write-done token files (suc (suc (suc zero))) h = absurd (omega arith)
write-done token files (suc (suc (suc (suc zero)))) h = absurd (omega arith)
write-done token files (suc (suc (suc (suc (suc n))))) h = rw (take_nil n) refl

-- The token file is replaced by the last step only.
pub write-target :
    (token : Token) (files : Files) (done : ℕ)
    → done < 5
    → (write token files done).target ≡ files.target
unfolding write file_steps file_step
write-target token files zero h = refl
write-target token files (suc zero) h = refl
write-target token files (suc (suc zero)) h = refl
write-target token files (suc (suc (suc zero))) h = refl
write-target token files (suc (suc (suc (suc zero)))) h = refl
write-target token files (suc (suc (suc (suc (suc n))))) h = absurd (omega (arith, h))

-- However far the write gets, the token file is the one from before, or it is the new token and
-- only its owner can read it.
pub write_atomic :
    (token : Token) (files : Files) (done : ℕ)
    → ((write token files done).target ≡ files.target)
      ⊎ ((write token files done).target
          ≡ some (record { content = object token; owner_only = true }))
unfolding write file_steps file_step
write_atomic token files zero = inl refl
write_atomic token files (suc zero) = inl refl
write_atomic token files (suc (suc zero)) = inl refl
write_atomic token files (suc (suc (suc zero))) = inl refl
write_atomic token files (suc (suc (suc (suc zero)))) = inl refl
write_atomic token files (suc (suc (suc (suc (suc n))))) = inr (
    ap (λ (f : Files). f.target)
      (write-done token files (suc (suc (suc (suc (suc n))))) (omega arith)))
