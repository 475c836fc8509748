-- ===== src/Settings/Manager/Url/Manifest.antt =====
-- `resolveFirmwareManifest` of src/Core/Settings/SettingsManager.cpp: its loop ends, and replaces
-- the placeholders from left to right.
use io_tsmart_sys_core.Base.{
  length-take, drop-length-append, length-drop, drop-append, take-append, ℕ, zero, suc, ◌+◌, ◌≤◌,
  ◌<◌, true, false, ◌≡◌, refl, sym, ap, ◌∙◌, ◌⊎◌, inl, inr, [], ◌∷◌, ◌++◌, none, some, Option-cases,
  Bool-cases, Text, codes, is_empty, length, length-append, take, drop, arith, if◌then◌else◌,
}
use mathlib.Core.List.{append_assoc}
use io_tsmart_sys_core.Settings.Mqtt.{starts_with, find, replace_at}
use io_tsmart_sys_core.Settings.Manager.Url.{
  Build, find_from, resolve_loop, resolve_firmware_manifest,
}

abbrev env_id_placeholder : Text
env_id_placeholder = codes "{env_id}"

-- Every placeholder is replaced, from left to right; `skip` bytes of one are still to be dropped.
abbrev pub replaced : Text → ℕ → Text → Text
replaced env skip [] = []
replaced env (suc skip) (x ∷ xs) = replaced env skip xs
replaced env zero (x ∷ xs) =
    let kept = x ∷ replaced env 0 xs in
    let new = env ++ replaced env 7 xs in
    if starts_with env_id_placeholder (x ∷ xs) then new else kept

replaced_skip : (env : Text) (k : ℕ) (s : Text) → replaced env k s ≡ replaced env 0 (drop k s)
replaced_skip env zero s = refl
replaced_skip env (suc k) [] = refl
replaced_skip env (suc k) (x ∷ xs) = replaced_skip env k xs

drop_nil : (n : ℕ) → drop {A = ℕ} n [] ≡ []
drop_nil zero = refl
drop_nil (suc n) = refl

starts_with-le : (p s : Text) → starts_with p s ≡ true → length p ≤ length s
unfolding starts_with
starts_with-le [] s h = omega arith
starts_with-le (p ∷ ps) [] h = cc
starts_with-le (p ∷ ps) (x ∷ xs) h = ground (arith, starts_with-le ps xs)

find-le : (p s : Text) (i : ℕ) → find p s ≡ some i → i + length p ≤ length s
unfolding find
find-le p [] i h = ground (arith, starts_with-le p [])
find-le p (x ∷ xs) i h = elim (Bool-cases (starts_with p (x ∷ xs))) [
  | inl here ↦ ground (arith, starts_with-le p (x ∷ xs))
  | inr there ↦ elim (Option-cases (find p xs)) [
    | inl gone ↦ ground arith
    | inr (j, later) ↦ ground (arith, find-le p xs j)
  ]
]

replaced-find-none : (env s : Text) → find env_id_placeholder s ≡ none → replaced env 0 s ≡ s
unfolding find
replaced-find-none env [] h = refl
replaced-find-none env (x ∷ xs) h = ground (arith, replaced-find-none env xs)

replaced-find_cons :
    (env : Text) (x : ℕ) (xs : Text) (i : ℕ)
    → find env_id_placeholder (x ∷ xs) ≡ some i
    → ((starts_with env_id_placeholder (x ∷ xs) ≡ true) × (i ≡ 0))
      ⊎ ((j : ℕ) × (starts_with env_id_placeholder (x ∷ xs) ≡ false)
          × (i ≡ suc j)
          × (find env_id_placeholder xs ≡ some j))
unfolding find
replaced-find_cons env x xs i h = elim (Bool-cases (starts_with env_id_placeholder (x ∷ xs))) [
  | inl here ↦ inl (here, ground arith)
  | inr there ↦ elim (Option-cases (find env_id_placeholder xs)) [
    | inl gone ↦ ground arith
    | inr (j, later) ↦ inr (j, there, ground arith, later)
  ]
]

replaced-find-some :
    (env s : Text) (i : ℕ)
    → find env_id_placeholder s ≡ some i
    → replaced env 0 s ≡ take i s ++ (env ++ replaced env 0 (drop 8 (drop i s)))
unfolding find starts_with
replaced-find-some env [] i h = cc
replaced-find-some env (x ∷ xs) i h = elim (replaced-find_cons env x xs i h) [
  | inl (here, e) ↦ rw (e, here) (ap (λ (t : Text). env ++ t) (replaced_skip env 7 xs))
  | inr (j, there, e, later) ↦
      rw (e, there) (ap (λ (t : Text). x ∷ t) (replaced-find-some env xs j later))
]

replace_at-append :
    (env done rest : Text) (i : ℕ)
    → replace_at (length done + i) 8 env (done ++ rest)
      ≡ (done ++ (take i rest ++ env)) ++ drop 8 (drop i rest)
replace_at-append env done rest i =
    rw (take-append i done rest, drop-append i done rest) (simp append_assoc)

length_done :
    (env done rest : Text) (i : ℕ)
    → i ≤ length rest
    → length done + i + length env ≡ length (done ++ (take i rest ++ env))
length_done env done rest i h = omega (
  arith,
  length-append done (take i rest ++ env),
  length-append (take i rest) env,
  length-take i rest h,
)

module _ (env done rest : Text) (i : ℕ) (e : find env_id_placeholder rest ≡ some i) where
  placeholder_fits : i + 8 ≤ length rest
  placeholder_fits = find-le env_id_placeholder rest i e

  rest_shrinks : length (drop 8 (drop i rest)) + 8 ≤ length rest
  rest_shrinks = omega (arith, placeholder_fits, length-drop 8 (drop i rest), length-drop i rest)

  spec_step :
      (done ++ (take i rest ++ env)) ++ replaced env 0 (drop 8 (drop i rest))
      ≡ done ++ replaced env 0 rest
  spec_step = rw (replaced-find-some env rest i e) (simp append_assoc)

-- One round for each byte that is left is enough.
resolve_loop_lem :
    (f : ℕ) (env done rest : Text)
    → length rest < f
    → resolve_loop f env (length done) (done ++ rest) ≡ some (done ++ replaced env 0 rest)
unfolding resolve_loop find_from
resolve_loop_lem zero env done rest h = absurd (omega arith)
resolve_loop_lem (suc f) env done rest h =
    rw (drop-length-append done rest, resolve_loop, find_from)
      (elim (Option-cases (find env_id_placeholder rest)) [
        | inl gone ↦
            rw gone (ap (λ (t : Text). some (done ++ t)) (sym (replaced-find-none env rest gone)))
        | inr (i, e) ↦ rw e (
            rw
              (
                replace_at-append env done rest i,
                length_done env done rest i (omega (arith, placeholder_fits env done rest i e)),
              )
              (resolve_loop_lem f env (done ++ (take i rest ++ env)) (drop 8 (drop i rest))
                  (omega (arith, rest_shrinks env done rest i e))
                ∙ ap some (spec_step env done rest i e)))
      ])

-- The loop of `resolveFirmwareManifest` ends for every manifest and every name of an environment,
-- also for one that holds the placeholder: with an empty name the manifest stays as it is, and
-- otherwise every placeholder is replaced by the name, from left to right.
pub resolve_firmware_manifest_ends :
    (b : Build) (manifest : Text)
    → resolve_firmware_manifest b manifest
      ≡ some (if is_empty b.env_id then manifest else replaced b.env_id 0 manifest)
unfolding resolve_firmware_manifest
resolve_firmware_manifest_ends b manifest = elim (Bool-cases (is_empty b.env_id)) [
  | inl e ↦ rw e
  | inr e ↦ rw e (resolve_loop_lem (suc (length manifest)) b.env_id [] manifest (omega arith))
]
