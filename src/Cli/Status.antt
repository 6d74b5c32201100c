-- ===== src/Cli/Status.antt =====
-- What the command status of cmd/skupper-docker/main.go says of the nodes that the router knows.
use skupper_docker.Base.{ℕ, ◌+◌, ◌≡◌, String, ◌<>◌, List, nat_eq, arith, if◌then◌else◌}
use skupper_docker.Base.Int.{pos, itoa}
use skupper_docker.Base.Exec.{ok}
use skupper_docker.Network.{RouterNode, get_connected_sites}
use skupper_docker.Network.Laws.{count, is_direct, is_indirect, get_connected_sites_lem}
use skupper_docker.Cli.Sites.{sites_text}

-- the sites in words, for the number of the direct and of the indirect ones
abbrev pub in_words : ℕ → ℕ → String
in_words direct indirect =
    if nat_eq (direct + indirect) 0
    then " It is not connected to any other sites."
    else if nat_eq (direct + indirect) 1
    then " It is connected to 1 other site."
    else if nat_eq indirect 0
    then " It is connected to " <> itoa (pos direct) <> " other sites."
    else " It is connected to "
      <> itoa (pos (direct + indirect))
      <> " other sites ("
      <> itoa (pos indirect)
      <> " indirectly)."

-- The status counts the nodes without a next hop and those whose next hop is another node; it says
-- how many sites there are, and how many are indirect if there are several sites and some are.
pub sites_text-get_connected_sites :
    (nodes : List RouterNode)
    → sites_text (get_connected_sites (ok nodes)).0
      ≡ in_words (count is_direct nodes) (count is_indirect nodes)
unfolding sites_text
sites_text-get_connected_sites nodes =
    let (direct, indirect, total) = get_connected_sites_lem nodes in
    rw (total, direct, indirect) (ground arith)
