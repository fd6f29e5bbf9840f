-- ===== src/Ric/Tests.antt =====
-- apps/ric/sure/rc/rc_xapp.c at a small request.
use sure.Prelude.{ℕ, ◌≤◌, ◌≡◌, ◌↔◌, refl, true, List, ◌++◌, length, take, drop, some, replicate}
use sure.Prelude.Bytes.{bytes_of}
use sure.Frontend.{strstr, blank_line}
use sure.Frontend.Scan.{decimal}
use sure.Service.Unimsg.{Desc}
use sure.Ric.{expected_req, head_lines, response, find_body, reply, print_number}
use sure.Ric.Echo.{reply_iff}

abbrev request : List ℕ
request = expected_req ++ (bytes_of "Host: a" ++ (blank_line ++ bytes_of "{}"))

abbrev fresh : Desc
fresh = record { addr = true; off = 64; bytes = replicate 200 7 }

body_found : find_body request ≡ some (bytes_of "{}")
unfolding find_body strstr
body_found = refl

three_digits : print_number 305 ≡ bytes_of "305"
three_digits = refl

-- The response to such a request is cut within its second line.
cut_short :
    (reply request (bytes_of "now") (bytes_of "{}") fresh).bytes
    ≡ take 38 (response (bytes_of "now") (bytes_of "{}"))
unfolding reply
cut_short = refl

reply_iff_example :
    (((rest : List ℕ) × ((reply request (bytes_of "now") (bytes_of "{}") fresh).bytes
          ≡ response (bytes_of "now") (bytes_of "{}") ++ rest))
      ↔ (length (response (bytes_of "now") (bytes_of "{}")) ≤ length request))
    × (decimal 0
          (drop (length (head_lines (bytes_of "now"))) (response (bytes_of "now") (bytes_of "{}")))
        ≡ 2)
reply_iff_example = reply_iff request (bytes_of "now") (bytes_of "{}") fresh
