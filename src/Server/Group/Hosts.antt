-- ===== src/Server/Group/Hosts.antt =====
-- The connection string of an ensemble names its servers.
use zookeeper_cpp.Base.{
  ℕ, suc, ◌<◌, true, [], ◌∷◌, ◌++◌, ◌≡◌, ◌≢◌, refl, ◌∙◌, ap, codes, decimal, decimal-IsDigits,
  is_digit, IsAll, IsAll-mono, IsAll-intro, except, All, All-append, arith, length,
}
use zookeeper_cpp.Connection.Params.{Seconds, default_params}
use zookeeper_cpp.Connection.Parse.{parse}
use zookeeper_cpp.Connection.Plain.{parse-plain}
use zookeeper_cpp.Connection.Split.{ArePieces}
use zookeeper_cpp.Error.Result.{ok}
use zookeeper_cpp.Server.Configuration.{Configuration}
use zookeeper_cpp.Server.Group.{Servers, Files, ServerGroup, make_ensemble, base_port_of}
use zookeeper_cpp.Server.Group.Ensemble.{IsReady, make_ensemble-AreWritten, length-laid_out}
use zookeeper_cpp.Server.Group.Layout.{laid_out}
use zookeeper_cpp.Server.Group.Written.{AreWritten, hosts_of}

digit-except_comma : (c : ℕ) → is_digit c ≡ true → except b',' c ≡ true
digit-except_comma c h = ground arith

digit-except_slash : (c : ℕ) → is_digit c ≡ true → except b'/' c ≡ true
digit-except_slash c h = ground arith

host-except_comma : (n : ℕ) → IsAll (except b',') (codes "127.0.0.1:" ++ decimal n)
host-except_comma n =
    All-append (λ c. except b',' c ≡ true) (codes "127.0.0.1:") (decimal n)
      (IsAll-intro (except b',') (codes "127.0.0.1:") refl)
      (IsAll-mono (decimal n) digit-except_comma (decimal-IsDigits n))

host-except_slash : (n : ℕ) → IsAll (except b'/') (codes "127.0.0.1:" ++ decimal n)
host-except_slash n =
    All-append (λ c. except b'/' c ≡ true) (codes "127.0.0.1:") (decimal n)
      (IsAll-intro (except b'/') (codes "127.0.0.1:") refl)
      (IsAll-mono (decimal n) digit-except_slash (decimal-IsDigits n))

hosts_of-ArePieces : (xs : Servers) → ArePieces b',' (hosts_of xs)
unfolding hosts_of
hosts_of-ArePieces [] = tt
hosts_of-ArePieces ((id, x) ∷ []) = (host-except_comma _, λ e. cc e)
hosts_of-ArePieces ((id, x) ∷ y ∷ xs) = (host-except_comma _, hosts_of-ArePieces (y ∷ xs))

hosts_of-no_slash : (xs : Servers) → All (IsAll (except b'/')) (hosts_of xs)
unfolding hosts_of
hosts_of-no_slash [] = tt
hosts_of-no_slash ((id, x) ∷ xs) = (host-except_slash _, hosts_of-no_slash xs)

hosts_of-ne-nil : (xs : Servers) → 0 < length xs → hosts_of xs ≢ []
unfolding hosts_of
hosts_of-ne-nil [] h = absurd (omega arith)
hosts_of-ne-nil (x ∷ xs) h = λ e. cc e

hosts_of-AreWritten : (group xs ys : Servers) → AreWritten group xs ys → hosts_of ys ≡ hosts_of xs
unfolding hosts_of
hosts_of-AreWritten group [] [] h = refl
hosts_of-AreWritten group ((id, x) ∷ xs) ((id', y) ∷ ys) h =
    rw (h.1.port_is, hosts_of-AreWritten group xs ys h.2) refl
hosts_of-AreWritten group [] (y ∷ ys) h = elim h [ ]
hosts_of-AreWritten group (x ∷ xs) [] h = elim h [ ]

length-AreWritten : (group xs ys : Servers) → AreWritten group xs ys → length ys ≡ length xs
length-AreWritten group [] [] h = refl
length-AreWritten group ((id, x) ∷ xs) ((id', y) ∷ ys) h =
    ap suc (length-AreWritten group xs ys h.2)
length-AreWritten group [] (y ∷ ys) h = elim h [ ]
length-AreWritten group (x ∷ xs) [] h = elim h [ ]

-- Where the file system does what it is asked to, an ensemble of 1 to 255 servers can be made from
-- settings that have a directory and no servers. It has as many servers, and a client that parses
-- its connection string gets the address of each, with the client port of its settings, in the order of their ids, and the
-- default for all else.
pub make_ensemble-parse :
    (sec : Seconds) (fs : Files) (size : ℕ) (c : Configuration)
    → IsReady fs size c
    → (g : ServerGroup) × (make_ensemble fs size c ≡ ok g)
      × (length g.servers ≡ size)
      × (parse sec g.conn_string ≡ ok (record default_params { hosts = hosts_of g.servers }))
make_ensemble-parse sec fs size c r =
    let group : Servers = laid_out c r.directory size 0 (base_port_of c) in
    let (g, made, text, are) = make_ensemble-AreWritten fs size c r in
    let sizes : length group ≡ size = length-laid_out c r.directory size 0 (base_port_of c) in
    (
      g,
      made,
      length-AreWritten group group g.servers are ∙ sizes,
      rw (text, hosts_of-AreWritten group group g.servers are)
          (parse-plain sec (hosts_of group)
            (hosts_of-ne-nil group (omega (arith, r.size_pos, sizes))) (hosts_of-ArePieces group)
            (hosts_of-no_slash group)),
    )
