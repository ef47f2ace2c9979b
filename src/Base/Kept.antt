-- ===== src/Base/Kept.antt =====
-- What holds of each byte of a text holds of each byte of a part of it.
use Prim.Native.Nat.{ℕ, zero, suc}
use mathlib.Core.List.{List, [], ◌∷◌, reverse_aux}
use mailschleuse.Base.Tests.{if_intro, ◌==◌}
use mailschleuse.Base.Lists.{All, take}
use mailschleuse.Base.Text.{Bytes, is_space, trim_left, trim_space, push_head, split}

module _ (P : ℕ → Type 0) where
  pub All-reverse_aux : (s acc : Bytes) → All P s → All P acc → All P (reverse_aux s acc)
  All-reverse_aux [] acc h k = k
  All-reverse_aux (c ∷ s) acc h k = All-reverse_aux s (c ∷ acc) h.1 (h.0, k)

  All-trim_left : (s : Bytes) → All P s → All P (trim_left s)
  unfolding trim_left
  All-trim_left [] h = tt
  All-trim_left (c ∷ s) h = if_intro (All P) (is_space c) (All-trim_left s h.1) h

  -- Trimming takes bytes off only.
  pub All-trim_space : (s : Bytes) → All P s → All P (trim_space s)
  unfolding trim_space
  All-trim_space s h =
      All-reverse_aux _ [] (All-trim_left _ (All-reverse_aux _ [] (All-trim_left s h) tt)) tt

  pub All-take : (n : ℕ) (s : Bytes) → All P s → All P (take n s)
  All-take zero s h = tt
  All-take (suc n) [] h = tt
  All-take (suc n) (c ∷ s) h = (h.0, All-take n s h.1)

  All-push_head : (c : ℕ) (ps : List Bytes) → P c → All (All P) ps → All (All P) (push_head c ps)
  All-push_head c [] pc h = ((pc, tt), tt)
  All-push_head c (p ∷ ps) pc h = ((pc, h.0), h.1)

  -- Each part of a text that is split.
  pub All-split : (s : Bytes) (sep : ℕ) → All P s → All (All P) (split s sep)
  unfolding split
  All-split [] sep h = (tt, tt)
  All-split (c ∷ s) sep h =
      if_intro (All (All P)) (c == sep) (tt, All-split s sep h.1)
        (All-push_head c (split s sep) h.0 (All-split s sep h.1))
