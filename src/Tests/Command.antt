-- ===== src/Tests/Command.antt =====
-- Command lines.
use agora_protocol.Base.{
  ◌≡◌, refl, true, List, [], ◌∷◌, none, some, Text, codes, mem_text, starts_with, text_eq, All,
  trim_start, byte_len, is_alphanumeric,
}
use agora_protocol.Base.Dict.{insert, contains_key, lookup}
use agora_protocol.Base.Result.{ok, err}
use agora_protocol.Config.Names.{valid_name, is_name_char}
use agora_protocol.Mcp.Server.{start}
use agora_protocol.Mcp.Server.Requests
use agora_protocol.Command.{run, parse, serve_session, unknown_flag}
use agora_protocol.Command.Arguments.{
  Item, a_word, a_switch, a_setting, IsItem, written, words, flags_of, parse-written,
}
use agora_protocol.Command.Names.{run-AreNames}
use agora_protocol.Tests.Mcp.{serde, session}

abbrev typed : List Text
typed = codes "mcp" ∷ codes "--channel" ∷ codes "--name" ∷ codes "fe-runs" ∷ []

typed_session : run none typed ≡ ok (serve_session (some (codes "fe-runs")) none true none)
unfolding run parse mem_text text_eq starts_with contains_key lookup insert trim_start valid_name
    byte_len is_name_char is_alphanumeric
typed_session = refl

run-AreNames_example :
    All
      (λ o. valid_name o.name ≡ true)
      (Requests.run serde session (
        Requests.session_of serde
          (start (some (codes "fe-runs")) none true none none))).1.server.opened
run-AreNames_example =
    run-AreNames none typed (some (codes "fe-runs")) none none none true serde session typed_session

abbrev said : List Item
said =
    a_word (codes "send")
    ∷ a_setting (codes "--as") (codes "--odd")
    ∷ a_word (codes "bob@laptop")
    ∷ a_switch (codes "--channel")
    ∷ a_word (codes "-")
    ∷ []

said-IsItem : All IsItem said
unfolding mem_text starts_with text_eq
said-IsItem = ((refl, refl), (refl, ((refl, refl), (refl, ((refl, refl), tt)))))

parse-written_example : parse (written said) ≡ ok (words said, flags_of said [])
parse-written_example = parse-written said said-IsItem

unknown :
    run none (codes "status" ∷ codes "--verbose" ∷ []) ≡ err (unknown_flag (codes "--verbose"))
unfolding run parse mem_text text_eq starts_with
unknown = refl
