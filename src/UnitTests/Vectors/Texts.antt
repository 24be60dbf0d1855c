-- ===== src/UnitTests/Vectors/Texts.antt =====
-- The texts and hexadecimal digits of the test vectors in src/lib.rs.
use enr.Prelude.{◌++◌}
use enr.Bytes.{Bytes, text}

-- The example of the specification: the record, its text, its signature, public key and identifier.
abbrev pub example_record : Bytes
example_record =
    text "f884b8407098ad865b00a582051940cb9cf36836572411a47278783077011599ed5cd16b76f2635f"
    ++ (text "4e234738f30813a89eb9137e3e3df5266e3a1f11df72ecf1145ccb9c01826964827634826970847f"
        ++ (text "00000189736563703235366b31a103ca634cae0d49acb401d8a4c6b6fe8c55b70d115bf400769cc1"
            ++ (text "400f3258cd31388375647082765f")))

abbrev pub example_text : Bytes
example_text =
    text "enr:-IS4QHCYrYZbAKWCBRlAy5zzaDZXJBGkcnh4MHcBFZntXNFrdvJjX04jRzjzCBOonrkTfj499SZu"
    ++ (text "Oh8R33Ls8RRcy5wBgmlkgnY0gmlwhH8AAAGJc2VjcDI1NmsxoQPKY0yuDUmstAHYpMa2_oxVtw0RW_QA"
        ++ (text "dpzBQA8yWM0xOIN1ZHCCdl8"))

abbrev pub example_signature : Bytes
example_signature =
    text "7098ad865b00a582051940cb9cf36836572411a47278783077011599ed5cd16b76f2635f4e234738"
    ++ (text "f30813a89eb9137e3e3df5266e3a1f11df72ecf1145ccb9c")

abbrev pub example_pubkey : Bytes
example_pubkey = text "03ca634cae0d49acb401d8a4c6b6fe8c55b70d115bf400769cc1400f3258cd3138"

abbrev pub example_node_id : Bytes
example_node_id = text "a448f24c6d18e575453db13171562b71999873db5b286df957af199ec94617f7"

-- The same, of a record with a value that is a list.
abbrev pub list_text : Bytes
list_text =
    text "enr:-Je4QH0uN2HkMRmscUp6yvyTOPGtOg9U6lCxBFvCGynyystnDNRJbfz5GhXXY2lcu9tsghMxRiYH"
    ++ (text "oznBwG46GQ7dfm0og2V0aMfGhMvbiDiAgmlkgnY0gmlwhA6hJmuJc2VjcDI1NmsxoQJBP4kg9GNBurV3"
        ++ (text "uVXgR72u1n-XIABibUZLT1WvJLKwvIN0Y3CCdyeDdWRwgncn"))

abbrev pub list_signature : Bytes
list_signature =
    text "7d2e3761e43119ac714a7acafc9338f1ad3a0f54ea50b1045bc21b29f2cacb670cd4496dfcf91a15"
    ++ (text "d763695cbbdb6c821331462607a339c1c06e3a190edd7e6d")

abbrev pub list_pubkey : Bytes
list_pubkey = text "02413f8920f46341bab577b955e047bdaed67f972000626d464b4f55af24b2b0bc"

-- What is refused, and why.
abbrev pub padded_text : Bytes
padded_text =
    text "enr:-IS4QHCYrYZbAKWCBRlAy5zzaDZXJBGkcnh4MHcBFZntXNFrdvJjX04jRzjzCBOonrkTfj499SZu"
    ++ (text "Oh8R33Ls8RRcy5wBgmlkgnY0gmlwhH8AAAGJc2VjcDI1NmsxoQPKY0yuDUmstAHYpMa2_oxVtw0RW_QA"
        ++ (text "dpzBQA8yWM0xOIN1ZHCCdl8="))

abbrev pub padded_error : Bytes
padded_error = text "Invalid base64 encoding: InvalidPadding"

abbrev pub trailing_text : Bytes
trailing_text =
    text "enr:-IS4QHCYrYZbAKWCBRlAy5zzaDZXJBGkcnh4MHcBFZntXNFrdvJjX04jRzjzCBOonrkTfj499SZu"
    ++ (text "Oh8R33Ls8RRcy5wBgmlkgnY0gmlwhH8AAAGJc2VjcDI1NmsxoQPKY0yuDUmstAHYpMa2_oxVtw0RW_QA"
        ++ (text "dpzBQA8yWM0xOIN1ZHCCdl9"))

abbrev pub trailing_error : Bytes
trailing_error = text "Invalid base64 encoding: InvalidLastSymbol(178, 57)"

abbrev pub short_record : Bytes
short_record =
    text "f883b8407098ad865b00a582051940cb9cf36836572411a47278783077011599ed5cd16b76f2635f"
    ++ (text "4e234738f30813a89eb9137e3e3df5266e3a1f11df72ecf1145ccb9c01826964827634826970847f"
        ++ (text "00000189736563703235366b31a103ca634cae0d49acb401d8a4c6b6fe8c55b70d115bf400769cc1"
            ++ (text "400f3258cd31388375647082765f")))

abbrev pub long_record : Bytes
long_record =
    text "f884b8407098ad865b00a582051940cb9cf36836572411a47278783077011599ed5cd16b76f2635f"
    ++ (text "4e234738f30813a89eb9137e3e3df5266e3a1f11df72ecf1145ccb9c01826964827634826970847f"
        ++ (text "00000189736563703235366b31a103ca634cae0d49acb401d8a4c6b6fe8c55b70d115bf400769cc1"
            ++ (text "400f3258cd31388375647082765ffc")))

abbrev pub leading_zero_text : Bytes
leading_zero_text =
    text "enr:-Ia4QHCYrYZbAKWCBRlAy5zzaDZXJBGkcnh4MHcBFZntXNFrdvJjX04jRzjzCBOonrkTfj499SZu"
    ++ (text "Oh8R33Ls8RRcy5yCAAGCaWSCdjSCaXCEfwAAAYlzZWNwMjU2azGhA8pjTK4NSay0Adikxrb-jFW3DRFb"
        ++ (text "9AB2nMFADzJYzTE4g3VkcIJ2Xw"))

abbrev pub leading_zero_error : Bytes
leading_zero_error = text "Invalid ENR: RlpInvalidIndirection"
