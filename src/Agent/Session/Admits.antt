-- ===== src/Agent/Session/Admits.antt =====
-- agent/src/quic/server.rs, `handle_session`, with server/src/ws/session_handler.rs: which of the server's
-- tokens an agent that the server installed lets in.
use oxmux.Prelude.{◌++◌, ℕ, ◌≡◌, List, Option, some}
use oxmux.Prelude.Text.{Text, codes}
use oxmux.Result.{Result, ok}
use oxmux.Jwt.{JwtLibrary}
use oxmux.Agent.Messages.{Value, get_str}
use oxmux.Agent.Session.Start.{AnyClaims, authenticate}
use oxmux.Deploy.{Target, service_cmd}
use oxmux.Ws.Rest.{TokenReply, issued, refused}

-- Whatever the place of the binary, the service that the deployment writes on the host has this secret
-- in the environment of the agent, as a line of its own.
abbrev pub SetsSecret : Target → Text → Type 0
SetsSecret d secret =
    (bin : Text)
    → (before : Text) × (after : Text) × (service_cmd d bin
        ≡ before
          ++ (codes "\nEnvironment=OXMUX_AGENT_SECRET="
              ++ (secret ++ (codes "\nEnvironment=" ++ after))))

abbrev after_secret : Target → Text → Text
after_secret d bin =
    codes "COTURN_AUTH_SECRET="
    ++ (d.coturn_secret
        ++ (codes "\nEnvironment=COTURN_SERVERS="
            ++ (d.coturn_servers
                ++ (codes "\nEnvironment=PUBLIC_IP="
                    ++ (d.host
                        ++ (codes "\nEnvironment=RUST_LOG=oxmux_agent=info\nExecStart="
                            ++ (bin
                                ++ (codes
                                      "\nRestart=always\nRestartSec=5\n\n[Install]\nWantedBy=multi-user.target\nSVCEOF\n"
                                    ++ codes
                                        "systemctl daemon-reload && systemctl enable --now oxmux-agent' && echo SERVICE_OK"))))))))

-- A message with this token, read first, is let in by an agent with the secret.
abbrev pub LetsIn :
    {jwt : JwtLibrary} → AnyClaims jwt → (List ℕ → Option Value) → Text → ℕ → Text → Type 0
LetsIn lib decode secret now token =
    (auth_buf : List ℕ) (auth_msg : Value)
    → decode auth_buf ≡ some auth_msg
    → get_str auth_msg (codes "token") ≡ token
    → authenticate decode (lib.verify now) secret (some auth_buf) ≡ ok tt

token_of : Text → TokenReply → Text
token_of other (issued token host quic_port expires_in) = token
token_of other (refused status body) = other
