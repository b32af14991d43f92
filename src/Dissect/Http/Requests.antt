-- ===== src/Dissect/Http/Requests.antt =====
-- What `dissect_http` reads of a request.
use ge_sensor.Prelude.{
  ℕ, ◌≡◌, refl, ap, ◌∙◌, some, true, false, List, [], ◌∷◌, ◌++◌, arith, ltb, leb, length,
  length-append, drop-length,
}
use ge_sensor.Text.{
  from_utf8, lines, split_inclusive, onto_line, line_of, strip_return, space, starts_with,
  strip_prefix, trim, newline, carriage_return,
}
use ge_sensor.Text.Laws.{Lacks, splitn-append, splitn_one, lines-line}
use ge_sensor.Dissect.Http.{
  HttpInfo, http_slash, host_upper, request_info, first_line_info, host_of, find_host, http_lines,
  http_text, dissect_http,
}

abbrev pub request_line : List ℕ → List ℕ → List ℕ → List ℕ
request_line method uri version = method ++ (space ∷ (uri ++ (space ∷ version)))

abbrev pub end_line : List ℕ → List ℕ
end_line rest = carriage_return ∷ newline ∷ rest

-- A request with a Host header and no other.
abbrev pub request_bytes : List ℕ → List ℕ → List ℕ → List ℕ → List ℕ
request_bytes method uri version host =
    request_line method uri version ++ end_line ((host_upper ++ host) ++ end_line (end_line []))

abbrev pub request_fields : List ℕ → List ℕ → List ℕ → List ℕ → HttpInfo
request_fields method uri version host = record {
  method = method;
  uri = uri;
  version = version;
  status_code = 0;
  host = host;
}

module _ (method uri version host : List ℕ) where
  first_line_reads :
      Lacks space method
      → Lacks space uri
      → starts_with http_slash (request_line method uri version) ≡ false
      → first_line_info (request_line method uri version)
        ≡ some (request_fields method uri version [])
  unfolding first_line_info request_info
  first_line_reads m u s = rw (
    s,
    splitn-append 1 space method (uri ++ (space ∷ version)) m,
    splitn-append 0 space uri version u,
    splitn_one space version,
  )

  host_reads : trim host ≡ host → find_host ((host_upper ++ host) ∷ [] ∷ []) ≡ host
  unfolding find_host host_of strip_prefix
  host_reads t = t

  lines_read :
      Lacks newline (request_line method uri version)
      → Lacks newline host
      → lines (request_bytes method uri version host)
        ≡ request_line method uri version ∷ (host_upper ++ host) ∷ [] ∷ []
  unfolding lines split_inclusive onto_line line_of strip_return
  lines_read l h =
      lines-line (request_line method uri version) ((host_upper ++ host) ++ end_line (end_line []))
        l
      ∙ ap (◌∷◌ (request_line method uri version)) (
          lines-line (host_upper ++ host) (end_line [])
            (refl, (refl, (refl, (refl, (refl, (refl, h)))))))

  http_text_reads :
      Lacks space method
      → Lacks space uri
      → starts_with http_slash (request_line method uri version) ≡ false
      → Lacks newline (request_line method uri version)
      → Lacks newline host
      → trim host ≡ host
      → from_utf8 (request_bytes method uri version host)
        ≡ some (request_bytes method uri version host)
      → http_text (request_bytes method uri version host)
        ≡ some (request_fields method uri version host)
  unfolding http_text http_lines
  http_text_reads m u s l h t valid =
      let size =
        length-append (request_line method uri version)
          (end_line ((host_upper ++ host) ++ end_line (end_line []))) in
      let size' = length-append host (end_line (end_line [])) in
      let long : ltb (length (request_bytes method uri version host)) 10 ≡ false = ground arith in
      rw (long, valid, lines_read l h, http_lines, first_line_reads m u s, host_reads t)

  -- Method, URI, version and host of a request behind other bytes are read back. The request is UTF-8
  -- text, its method and URI have no space, none of the four has a newline, its line does not start
  -- with "HTTP/", and its host has no white space at its ends.
  pub dissect_http-request_bytes :
      (packet : List ℕ)
      → Lacks space method
      → Lacks space uri
      → starts_with http_slash (request_line method uri version) ≡ false
      → Lacks newline (request_line method uri version)
      → Lacks newline host
      → trim host ≡ host
      → from_utf8 (request_bytes method uri version host)
        ≡ some (request_bytes method uri version host)
      → dissect_http (packet ++ request_bytes method uri version host) (length packet)
        ≡ some (request_fields method uri version host)
  unfolding dissect_http
  dissect_http-request_bytes packet m u s l h t valid =
      let size = length-append packet (request_bytes method uri version host) in
      let there : leb (length packet) (length (packet ++ request_bytes method uri version host))
          ≡ true =
        ground arith in
      rw (there, dissect_http, drop-length packet (request_bytes method uri version host))
        (http_text_reads m u s l h t valid)
