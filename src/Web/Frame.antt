-- ===== src/Web/Frame.antt =====
-- internal/web/server.go: what the handlers around the API do to the store.
use mailschleuse.Base.{
  if_intro, is_nil, has_suffix, str_eq, has_prefix, codes, not, ◌&&◌, ◌++◌, trim_suffix_byte,
}
use mailschleuse.Store.State.{Store}
use mailschleuse.Web.Types.{Options, Request, Response, Handler, World}
use mailschleuse.Web.Access.{
  with_auth, with_cors, with_read_only, with_base, is_login, basic_auth, is_changing, is_options,
}
use mailschleuse.Web.Server.{mux, serve}

-- A reflexive relation between the store before a request and the one behind it.
module _ (R : Store → Store → Type 0) (same : (s : Store) → R s s) where
  -- The relation holds for whatever request the handler gets.
  abbrev pub Relates : Handler → Type 0
  Relates h = (r : Request) (s : Store) → R s (h r s).0

  with_read_only-Relates :
      (o : Options) (next : Handler) → Relates next → Relates (with_read_only o next)
  unfolding with_read_only
  with_read_only-Relates o next h r s =
      if_intro (λ (x : Store × Response). R s x.0) (o.read_only && is_changing r.method) (same s)
        (h r s)

  with_auth-Relates : (o : Options) (next : Handler) → Relates next → Relates (with_auth o next)
  unfolding with_auth
  with_auth-Relates o next h r s =
      let P : Store × Response → Type 0 = λ x. R s x.0 in
      if_intro P (is_nil o.username) (h r s) (
        if_intro P (has_suffix r.path (codes "/healthz")) (h r s)
          (if_intro P (not (is_login o (basic_auth r.authorization))) (same s) (h r s)))

  with_cors-Relates : (o : Options) (next : Handler) → Relates next → Relates (with_cors o next)
  unfolding with_cors
  with_cors-Relates o next h r s =
      let P : Store × Response → Type 0 = λ x. R s x.0 in
      if_intro P (is_nil o.cors_origin) (h r s) (if_intro P (is_options r.method) (same s) (h r s))

  with_base-Relates : (o : Options) (next : Handler) → Relates next → Relates (with_base o next)
  unfolding with_base
  with_base-Relates o next h r s =
      let P : Store × Response → Type 0 = λ x. R s x.0 in
      let base = trim_suffix_byte b'/' o.base_path in
      if_intro P (is_nil base) (h r s) (
        if_intro P (str_eq r.path base) (same s)
          (if_intro P (has_prefix r.path (base ++ codes "/")) (h _ s) (same s)))

  -- The handlers around the API leave the store alone.
  pub serve-Relates :
      (w : World) (o : Options) → Relates (with_read_only o (mux w o)) → Relates (serve w o)
  unfolding serve
  serve-Relates w o h = with_base-Relates o _ (with_cors-Relates o _ (with_auth-Relates o _ h))

  pub unguarded-Relates : (w : World) (o : Options) → Relates (mux w o) → Relates (serve w o)
  unguarded-Relates w o h = serve-Relates w o (with_read_only-Relates o _ h)
