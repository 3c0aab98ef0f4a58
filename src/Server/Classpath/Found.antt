-- ===== src/Server/Classpath/Found.antt =====
-- What the search for the jars finds.
use zookeeper_cpp.Base.{
  ℕ, zero, suc, ◌≤◌, Bool, true, false, List, [], ◌∷◌, ◌++◌, ◌≡◌, refl, sym, ap, subst, ◌∙◌, ◌⊎◌,
  inl, inr, Bytes, length, length-append, append-nil, append_assoc, arith, Bool-cases,
}
use mathlib.Core.List.{concat-ne-nil}
use zookeeper_cpp.Error.Exn.{
  Errno, eagain, ewouldblock, eintr, epipe, esrch, eio, enoent, other_errno,
}
use zookeeper_cpp.Error.Result.{ok, >>=-eq-ok, ok_inj, err_ok}
use zookeeper_cpp.Process.System.{Answer, done, failed}
use zookeeper_cpp.Process.Transfer.{taken}
use zookeeper_cpp.Server.Classpath.{
  Search, potential, potential_size, find_jar, find_jars, find_system_default, file_exists,
  stat_found, if_exists, searched, locations, requirements, is_enoent,
}
use zookeeper_cpp.Server.Registry.{Classpath}

taken-all : (n : ℕ) (cs : Bytes) → length cs ≤ n → taken n cs ≡ cs
unfolding taken
taken-all zero [] h = refl
taken-all zero (c ∷ cs) h = absurd (omega arith)
taken-all (suc n) [] h = refl
taken-all (suc n) (c ∷ cs) h = ap (◌∷◌ c) (taken-all n cs (omega arith))

-- The buffer holds the whole path.
potential_lem : (base_loc jar : Bytes) → potential base_loc jar ≡ base_loc ++ b'/' ∷ jar
unfolding potential potential_size
potential_lem base_loc jar =
    taken-all _ (base_loc ++ b'/' ∷ jar) (omega (arith, length-append base_loc (b'/' ∷ jar)))

is_enoent-eq : (e : Errno) → is_enoent e ≡ true → e ≡ enoent
is_enoent-eq enoent h = refl
is_enoent-eq eagain h = cc h
is_enoent-eq ewouldblock h = cc h
is_enoent-eq eintr h = cc h
is_enoent-eq epipe h = cc h
is_enoent-eq esrch h = cc h
is_enoent-eq eio h = cc h
is_enoent-eq (other_errno n) h = cc h

module _ (stat : Bytes → Answer (Unit {0})) where
  -- The path is that of the jar in the first location that has it.
  abbrev pub FoundIn : Bytes → List Bytes → Bytes → Type 0
  FoundIn jar [] path = ⊥
  FoundIn jar (loc ∷ locs) path =
      ((path ≡ loc ++ b'/' ∷ jar) × (stat path ≡ done tt))
      ⊎ ((stat (loc ++ b'/' ∷ jar) ≡ failed enoent) × FoundIn jar locs path)

  abbrev pub AreFound : List Bytes → List Bytes → Type 0
  AreFound [] [] = Unit
  AreFound (jar ∷ jars) (path ∷ paths) = FoundIn jar locations path × AreFound jars paths
  AreFound _ _ = ⊥

  file_exists-cases :
      (a : Answer (Unit {0})) (b : Bool)
      → stat_found stat a ≡ ok b
      → (b ≡ true) × (a ≡ done tt) ⊎ (b ≡ false) × (a ≡ failed enoent)
  unfolding stat_found
  file_exists-cases (done u) b e = inl (sym (ok_inj e), refl)
  file_exists-cases (failed n) b e = elim (Bool-cases (is_enoent n)) [
    | inl gone ↦ inr (sym (ok_inj (rw gone at e)), ap failed (is_enoent-eq n gone))
    | inr other ↦ absurd (err_ok (rw other at e))
  ]

  -- What the inner loop does to the search.
  abbrev Finds : Bytes → List Bytes → Search → Search → Type 0
  Finds jar locs s t =
      (t ≡ record s { unfound = s.unfound ++ jar ∷ [] })
      ⊎ ((path : Bytes) × FoundIn jar locs path
          × (t ≡ record s { components = s.components ++ path ∷ [] }))

  find_jar-Finds :
      (jar : Bytes) (locs : List Bytes) (s t : Search)
      → find_jar stat jar locs s ≡ ok t
      → Finds jar locs s t
  unfolding find_jar if_exists file_exists
  find_jar-Finds jar [] s t e = inl (sym (ok_inj e))
  find_jar-Finds jar (loc ∷ locs) s t e =
      let (found, f, rest) =
        >>=-eq-ok (file_exists stat (loc ++ b'/' ∷ jar)) _ (rw (potential_lem loc jar) at e) in
      elim (file_exists-cases (stat (loc ++ b'/' ∷ jar)) found f) [
        | inl (yes_found, there) ↦ inr (_, inl (refl, there), sym (ok_inj (rw yes_found at rest)))
        | inr (not_found, gone) ↦ elim (find_jar-Finds jar locs s t (rw not_found at rest)) [
          | inl none_there ↦ inl none_there
          | inr (path, in_rest, same) ↦ inr (path, inr (gone, in_rest), same)
        ]
      ]

  -- If no jar is left over, there were none before, and one path for each jar was added.
  find_jars-AreFound :
      (jars : List Bytes) (s t : Search)
      → find_jars stat jars s ≡ ok t
      → t.unfound ≡ []
      → (s.unfound ≡ [])
        × (paths : List Bytes) × AreFound jars paths
        × (t.components ≡ s.components ++ paths)
  unfolding find_jars
  find_jars-AreFound [] s t e all = (
    ap (λ (x : Search). x.unfound) (ok_inj e) ∙ all,
    [],
    tt,
    ap (λ (x : Search). x.components) (sym (ok_inj e)) ∙ sym (append-nil s.components),
  )
  find_jars-AreFound (jar ∷ jars) s t e all =
      let (m, first, rest) = >>=-eq-ok (find_jar stat jar locations s) _ e in
      let (clear, paths, are, same) = find_jars-AreFound jars m t rest all in
      elim (find_jar-Finds jar locations s m first) [
        | inl missed ↦
            absurd
              (concat-ne-nil jar s.unfound (ap (λ (x : Search). x.unfound) (sym missed) ∙ clear))
        | inr (path, in_one, found) ↦ (
          ap (λ (x : Search). x.unfound) (sym found) ∙ clear,
          path ∷ paths,
          (in_one, are),
          same
              ∙ ap (λ (x : Search). x.components ++ paths) found
              ∙ append_assoc s.components (path ∷ []) paths,
        )
      ]

  searched-ok :
      (found unfound : List Bytes) (components : Classpath)
      → searched stat found unfound ≡ ok components
      → (unfound ≡ []) × (found ≡ components)
  unfolding searched
  searched-ok found [] components e = (refl, ok_inj e)
  searched-ok found (jar ∷ jars) components e = absurd (err_ok e)

  -- A class path that the search returns has one path for each of the three jars, in their order: that of
  -- the file in the first of the two locations where `stat` finds it, and `stat` says of each
  -- location before it that there is no such file.
  pub find_system_default-AreFound :
      (components : Classpath)
      → find_system_default stat ≡ ok components
      → AreFound requirements components
  unfolding find_system_default searched
  find_system_default-AreFound components e =
      let (t, ran, rest) = >>=-eq-ok (find_jars stat requirements _) _ e in
      let (clear, same) = searched-ok t.components t.unfound components rest in
      let (_, paths, are, all) = find_jars-AreFound requirements _ t ran clear in
      subst (AreFound requirements) (sym all ∙ same) are
