-- ===== src/Http/AccessLog.antt =====
-- The access log of internal/server/http/middleware.go. `net.SplitHostPort`, the formats `%q` and `%d`
-- and the written times are parameters.
use golang_hw.Http.{StatusWriter, status_code}
use golang_hw.Prelude.{
  ℕ, Bool, false, ◌||◌, Option, none, some, List, [], ◌∷◌, ◌++◌, ◌≡◌, refl, ◌==◌, if◌then◌else◌,
  Text, codes, is_empty, All, All-append, arith, Option-cases, Bool-cases, inl, inr,
}

-- `strings.NewReplacer("\r", `\r`, "\n", `\n`)`
unfoldable pub sanitize_log_field : Text → Text
sanitize_log_field [] = []
sanitize_log_field (c ∷ s) =
    let rest = sanitize_log_field s in
    if c == 0xd then 0x5c ∷ 0x72 ∷ rest else if c == 0xa then 0x5c ∷ 0x6e ∷ rest else c ∷ rest

pub record HttpRequest : Type 0 where
  pub remote_addr : Text
  pub method : Text
  pub request_uri : Text
  pub url_request_uri : Text
  pub proto : Text
  pub user_agent : Text

abbrev pub is_break : ℕ → Bool
is_break c = c == 0xd || c == 0xa

-- What `Sprintf` writes, piece by piece.
unfoldable pub concat : List Text → Text
concat [] = []
concat (s ∷ parts) = s ++ concat parts

-- No line ends in it.
abbrev pub IsOneLine : Text → Type 0
IsOneLine s = All (λ c. is_break c ≡ false) s

module _ (split_host_port : Text → Option Text) (quoted : Text → Text) (decimal : ℕ → Text) where
  unfoldable pub client_ip : Text → Text
  unfolding sanitize_log_field
  client_ip remote_address =
      if is_empty remote_address then codes "-" else elim (split_host_port remote_address) [
        | some host ↦ host
        | none ↦ sanitize_log_field remote_address
      ]

  -- The deferred function of `loggingMiddleware`; there is no message without a logger.
  unfoldable pub log_message : (started_at latency : Text) → HttpRequest → StatusWriter → Text
  unfolding client_ip status_code
  log_message started_at latency r w = concat (
      client_ip r.remote_addr
      ∷ codes " ["
      ∷ started_at
      ∷ codes "] "
      ∷ sanitize_log_field r.method
      ∷ codes " "
      ∷ sanitize_log_field (if is_empty r.request_uri then r.url_request_uri else r.request_uri)
      ∷ codes " "
      ∷ sanitize_log_field r.proto
      ∷ codes " "
      ∷ decimal (status_code w)
      ∷ codes " latency="
      ∷ latency
      ∷ (if is_empty r.user_agent then [] else codes " " ++ quoted r.user_agent)
      ∷ [])

sanitize_log_field-IsOneLine : (s : Text) → IsOneLine (sanitize_log_field s)
unfolding sanitize_log_field
sanitize_log_field-IsOneLine [] = tt
sanitize_log_field-IsOneLine (c ∷ s) =
    let rest = sanitize_log_field-IsOneLine s in
    elim (Bool-cases (c == 0xd)) [
      | inl p ↦ rw (p) (refl, (refl, rest))
      | inr p ↦ elim (Bool-cases (c == 0xa)) [
        | inl q ↦ rw (p, q) (refl, (refl, rest))
        | inr q ↦ rw (p, q) (ground (arith, p, q), rest)
      ]
    ]

codes_line : IsOneLine (codes " latency=")
codes_line = (refl, (refl, (refl, (refl, (refl, (refl, (refl, (refl, (refl, tt)))))))))

concat-IsOneLine : (parts : List Text) → All IsOneLine parts → IsOneLine (concat parts)
unfolding concat
concat-IsOneLine [] h = tt
concat-IsOneLine (s ∷ parts) (h, k) =
    All-append (λ c. is_break c ≡ false) s (concat parts) h (concat-IsOneLine parts k)

module _ (split_host_port : Text → Option Text) (quoted : Text → Text) (decimal : ℕ → Text)
    (host_line : (address host : Text)
      → split_host_port address ≡ some host
      → IsOneLine address
      → IsOneLine host)
    (quoted_line : (s : Text) → IsOneLine (quoted s))
    (decimal_line : (n : ℕ) → IsOneLine (decimal n)) where
  client_ip-IsOneLine :
      (address : Text)
      → IsOneLine address
      → IsOneLine (client_ip split_host_port quoted decimal address)
  unfolding client_ip
  client_ip-IsOneLine [] h = (refl, tt)
  client_ip-IsOneLine (c ∷ s) h = elim (Option-cases (split_host_port (c ∷ s))) [
    | inl p ↦ rw (p) (sanitize_log_field-IsOneLine (c ∷ s))
    | inr (host, p) ↦ rw (p) (host_line (c ∷ s) host p h)
  ]

  user_agent_line : (s : Text) → IsOneLine (if is_empty s then [] else codes " " ++ quoted s)
  user_agent_line [] = tt
  user_agent_line (c ∷ s) = (refl, quoted_line (c ∷ s))

  -- An entry of the access log is one line, whatever the client sends as its method, address of the
  -- resource, protocol or user agent, where the remote address, quoted texts, numbers and times hold
  -- no end of a line, and `net.SplitHostPort` puts none into a host.
  pub log_message-IsOneLine :
      (started_at latency : Text) (r : HttpRequest) (w : StatusWriter)
      → IsOneLine r.remote_addr
      → IsOneLine started_at
      → IsOneLine latency
      → IsOneLine (log_message split_host_port quoted decimal started_at latency r w)
  unfolding log_message
  log_message-IsOneLine started_at latency r w a h k =
      let uri = if is_empty r.request_uri then r.url_request_uri else r.request_uri in
      concat-IsOneLine _ (
        client_ip-IsOneLine r.remote_addr a,
        (
          (refl, (refl, tt)),
          (
            h,
            (
              (refl, (refl, tt)),
              (
                sanitize_log_field-IsOneLine r.method,
                (
                  (refl, tt),
                  (
                    sanitize_log_field-IsOneLine uri,
                    (
                      (refl, tt),
                      (
                        sanitize_log_field-IsOneLine r.proto,
                        (
                          (refl, tt),
                          (
                            decimal_line (status_code w),
                            (codes_line, (k, (user_agent_line r.user_agent, tt))),
                          ),
                        ),
                      ),
                    ),
                  ),
                ),
              ),
            ),
          ),
        ),
      )
